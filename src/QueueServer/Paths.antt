-- ===== src/QueueServer/Paths.antt =====
-- internal/servers/queueserver/server.go: where the paths of a queue's messages lead.
use localaz.Common.{
  Bytes, codes, ℕ, true, ◌∷◌, ◌++◌, bytes_eq, bytes_eq_refl, ◌==◌, ◌≡◌, refl, ap, ◌∙◌, List,
}
use localaz.Common.Strings.{
  Without, Without-test, split, split-append, split-Without, trim_prefix_byte,
}
use localaz.QueueServer.Routes.{all_messages, one_message, route, route_segments, route_rest}

-- The paths of a queue's messages, and of one of them.
abbrev pub messages_path : Bytes → Bytes → Bytes
messages_path account queue = 47 ∷ account ++ 47 ∷ (queue ++ 47 ∷ codes "messages")

abbrev pub message_path : Bytes → Bytes → Bytes → Bytes
message_path account queue id = 47 ∷ account ++ 47 ∷ (queue ++ 47 ∷ (codes "messages" ++ 47 ∷ id))

-- one more part in front
split-cons :
    (c : ℕ) (s t part : Bytes) (parts : List Bytes)
    → Without c s
    → (c == c) ≡ true
    → split c t ≡ (part, parts)
    → split c (s ++ c ∷ t) ≡ (s, part ∷ parts)
split-cons c s t part parts h same e =
    split-append c s t h same ∙ ap (λ (p : Bytes × List Bytes). (s, p.0 ∷ p.1)) e

messages_slashless : Without 47 (codes "messages")
messages_slashless = Without-test 47 (codes "messages") refl

is_messages : bytes_eq (codes "messages") (codes "messages") ≡ true
is_messages = bytes_eq_refl (codes "messages")

pub route-messages_path :
    (a b : ℕ) (account queue : Bytes)
    → Without 47 (a ∷ account)
    → Without 47 (b ∷ queue)
    → route (messages_path (a ∷ account) (b ∷ queue)) ≡ all_messages (a ∷ account) (b ∷ queue)
unfolding route route_segments route_rest trim_prefix_byte
route-messages_path a b account queue na nq =
    ap route_segments (
      split-cons 47 (a ∷ account) _ _ _ na refl (
        split-cons 47 (b ∷ queue) _ _ _ nq refl
          (split-Without 47 (codes "messages") messages_slashless)))
    ∙ rw is_messages refl

pub route-message_path :
    (a b i : ℕ) (account queue id : Bytes)
    → Without 47 (a ∷ account)
    → Without 47 (b ∷ queue)
    → Without 47 (i ∷ id)
    → route (message_path (a ∷ account) (b ∷ queue) (i ∷ id))
      ≡ one_message (a ∷ account) (b ∷ queue) (i ∷ id)
unfolding route route_segments route_rest trim_prefix_byte
route-message_path a b i account queue id na nq ni =
    ap route_segments (
      split-cons 47 (a ∷ account) _ _ _ na refl (
        split-cons 47 (b ∷ queue) _ _ _ nq refl (
          split-cons 47 (codes "messages") _ _ _ messages_slashless refl
            (split-Without 47 (i ∷ id) ni))))
    ∙ rw is_messages refl
