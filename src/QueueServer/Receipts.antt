-- ===== src/QueueServer/Receipts.antt =====
-- internal/servers/queueserver: Get Messages, and then Delete Message with what it answered.
use localaz.Common.{
  Bytes, codes, ℕ, false, ◌∷◌, none, some, map, bytes_eq, ltb, ok, err, Result, ◌≡◌, refl, sym, ap,
  ◌∙◌, List, [], take, All, All-keep, All-of_mem, bytes_eq_iff, ◌&&◌, ◌+◌, arith,
}
use mathlib.Core.List.{Memᴰ}
use mathlib.Core.Path.{subst}
use localaz.Common.Int.{ℤ, pos}
use localaz.Common.Snapshot.{Codec}
use localaz.Common.Strings.{Without}
use localaz.Queue.Messages.{evict_expired, leased, dequeue_loop}
use localaz.Queue.Delivery.{lease_all, deliverable, dequeue_result, dequeue-eq-lease_all}
use localaz.Queue.Types.{Error, Time, Message, Queue, expired}
use localaz.Queue.Store.{Accounts, Store, Env, find_queue, dequeue, delete_message}
use localaz.Queue.Receipts.{DistinctIds, ok-injective, find_message, delete_message-dequeue}
use localaz.QueueServer.Http.{
  MessageView, Request, Response, Library, messages_xml, plain_response, parse_int, parse_seconds,
  dequeued_view, marshalled,
}
use localaz.QueueServer.Handlers.{
  default_visibility_timeout, max_num_of_messages, at_least_one, answered, get_messages_handler,
  delete_message_handler,
}
use localaz.QueueServer.Routes.{
  Target, all_messages, one_message, Verb, route, route_segments, route_rest, dispatch, serve_http,
  verb_of,
}
use localaz.QueueServer.Routes
use localaz.QueueServer.Answers.{Marshals}
use localaz.QueueServer.Paths.{messages_path, message_path, route-messages_path, route-message_path}

-- what a Get Messages asks for
abbrev pub asked_number : Library → Request → ℕ
asked_number lib r = at_least_one (parse_int lib (r.query (codes "numofmessages")) (pos 1))

abbrev pub asked_timeout : Library → Request → ℤ
asked_timeout lib r =
    parse_seconds lib (r.query (codes "visibilitytimeout")) default_visibility_timeout

answered-ok :
    {S A : Type 0} (lib : Library) (r : Request) (p : S × Result Error A) (x : A)
    (good : A → Response)
    → p.1 ≡ ok x
    → answered lib r p good ≡ (p.0, good x)
unfolding answered
answered-ok lib r (after, ok y) x good e = ap (λ z. (after, good z)) (ok-injective e)
answered-ok lib r (after, err y) x good e = cc

Memᴰ-map :
    {A B : Type 0} (f : A → B) (y : B) (xs : List A)
    → Memᴰ y (map f xs)
    → (x : A) × Memᴰ x xs × (f x ≡ y)
Memᴰ-map f y [] h = elim h [ ]
Memᴰ-map f y (x ∷ xs) (Memᴰ.head e) = (x, Memᴰ.head refl, sym e)
Memᴰ-map f y (x ∷ xs) (Memᴰ.tail h) =
    let (z, there, e) = Memᴰ-map f y xs h in (z, Memᴰ.tail there, e)

-- no message with the id has expired
abbrev pub Lasts : Time → Bytes → List Message → Type 0
Lasts later id = All (λ m. (bytes_eq m.id id && expired later m) ≡ false)

dequeue_loop-Lasts :
    (now : Time) (timeout : ℤ) (receipt : ℕ → Bytes) (num taken : ℕ) (later : Time) (id : Bytes)
    (ms : List Message)
    → Lasts later id ms
    → Lasts later id (dequeue_loop now timeout receipt num taken ms).1
unfolding dequeue_loop leased expired
dequeue_loop-Lasts now timeout receipt num taken later id [] h = tt
dequeue_loop-Lasts now timeout receipt num taken later id (m ∷ ms) (p, h) = ground (
  arith,
  dequeue_loop-Lasts now timeout receipt num taken later id ms h,
  dequeue_loop-Lasts now timeout receipt num (taken + 1) later id ms h,
)

messages_xml-injective : (xs ys : List MessageView) → messages_xml xs ≡ messages_xml ys → xs ≡ ys
messages_xml-injective xs ys h = cc

module _ (lib : Library) (marshals : Marshals lib) {D : Type 0} (c : Codec D Accounts) where
  get_messages_handler-dequeue :
      (env : Env) (account queue : Bytes) (r : Request) (s : Store D) (out : List Message)
      → ltb max_num_of_messages (asked_number lib r) ≡ false
      → bytes_eq (r.query (codes "peekonly")) (codes "true") ≡ false
      → (dequeue c env account queue (asked_number lib r) (asked_timeout lib r) s).1 ≡ ok out
      → get_messages_handler lib c env r account queue s ≡ (
        (dequeue c env account queue (asked_number lib r) (asked_timeout lib r) s).0,
        record (plain_response 200) { payload = messages_xml (map (dequeued_view lib) out) },
      )
  unfolding get_messages_handler answered marshalled
  get_messages_handler-dequeue env account queue r s out few take_them e =
      rw (get_messages_handler, few, take_them)
        (answered-ok lib r _ out _ e
          ∙ ap
              (λ x.
                ((dequeue c env account queue (asked_number lib r) (asked_timeout lib r) s).0, x))
              (rw (marshalled, marshals _) refl))

  serve_http-get :
      (env : Env) (a b : ℕ) (account queue : Bytes) (r : Request) (s : Store D) (out : List Message)
      → Without 47 (a ∷ account)
      → Without 47 (b ∷ queue)
      → r.path ≡ messages_path (a ∷ account) (b ∷ queue)
      → verb_of r.verb ≡ Routes.get
      → ltb max_num_of_messages (asked_number lib r) ≡ false
      → bytes_eq (r.query (codes "peekonly")) (codes "true") ≡ false
      → (dequeue c env (a ∷ account) (b ∷ queue) (asked_number lib r) (asked_timeout lib r) s).1
        ≡ ok out
      → serve_http lib c env r s ≡ (
        (dequeue c env (a ∷ account) (b ∷ queue) (asked_number lib r) (asked_timeout lib r) s).0,
        record (plain_response 200) { payload = messages_xml (map (dequeued_view lib) out) },
      )
  unfolding serve_http dispatch
  serve_http-get env a b account queue r s out na nq path verb few take_them e =
      ap (λ t. dispatch lib c env t (verb_of r.verb) r s)
        (ap route path ∙ route-messages_path a b account queue na nq)
      ∙ rw verb (get_messages_handler-dequeue env (a ∷ account) (b ∷ queue) r s out few take_them e)

  serve_http-delete :
      (env : Env) (a b i : ℕ) (account queue id : Bytes) (d : Request) (m : Message) (s : Store D)
      → Without 47 (a ∷ account)
      → Without 47 (b ∷ queue)
      → Without 47 (i ∷ id)
      → m.id ≡ i ∷ id
      → d.path ≡ message_path (a ∷ account) (b ∷ queue) (i ∷ id)
      → verb_of d.verb ≡ Routes.delete
      → d.query (codes "popreceipt") ≡ m.pop_receipt
      → (delete_message c env (a ∷ account) (b ∷ queue) m.id m.pop_receipt s).1 ≡ ok tt
      → serve_http lib c env d s ≡ (
        (delete_message c env (a ∷ account) (b ∷ queue) m.id m.pop_receipt s).0,
        plain_response 204,
      )
  unfolding serve_http dispatch delete_message_handler
  serve_http-delete env a b i account queue id d m s na nq ni is_id path verb receipt e =
      ap (λ t. dispatch lib c env t (verb_of d.verb) d s)
        (ap route path ∙ route-message_path a b i account queue id na nq ni)
      ∙ rw (verb, receipt, sym is_id) (answered-ok lib d _ tt _ e)

  -- a message of the answer is one that the store handed out
  handed_out :
      (env : Env) (a b : ℕ) (account queue : Bytes) (r : Request) (s : Store D) (out : List Message)
      (views : List MessageView) (v : MessageView)
      → (serve_http lib c env r s).1
        ≡ record (plain_response 200) { payload = messages_xml (map (dequeued_view lib) out) }
      → (serve_http lib c env r s).1.payload ≡ messages_xml views
      → Memᴰ v views
      → (m : Message) × Memᴰ m out × (dequeued_view lib m ≡ v)
  handed_out env a b account queue r s out views v answer seen there =
      let same : views ≡ map (dequeued_view lib) out =
        messages_xml-injective views _ (sym seen ∙ ap (λ x. x.payload) answer) in
      Memᴰ-map (dequeued_view lib) v out (subst (Memᴰ v) same there)

  -- A GET of the messages of a queue of distinct ids, which asks for 32 at most and not to peek, answers
  -- 200 with the oldest deliverable messages, as many as asked for, each leased. A DELETE with the id
  -- and the receipt of a message of the answer, if that is the next request and no message with the id
  -- has expired by then, answers 204, and no message of the queue has the id. The account, the queue
  -- and the id are not empty and have no slash, and every document can be marshalled.
  pub delete-get :
      (env later : Env) (a b i : ℕ) (account queue id : Bytes) (r d : Request) (s : Store D)
      (q : Queue) (views : List MessageView) (v : MessageView)
      → Without 47 (a ∷ account)
      → Without 47 (b ∷ queue)
      → Without 47 (i ∷ id)
      → r.path ≡ messages_path (a ∷ account) (b ∷ queue)
      → verb_of r.verb ≡ Routes.get
      → ltb max_num_of_messages (asked_number lib r) ≡ false
      → bytes_eq (r.query (codes "peekonly")) (codes "true") ≡ false
      → find_queue (a ∷ account) (b ∷ queue) s.accounts ≡ some q
      → DistinctIds q.messages
      → (serve_http lib c env r s).1.payload ≡ messages_xml views
      → Memᴰ v views
      → v.message_id ≡ i ∷ id
      → Lasts later.now (i ∷ id) q.messages
      → d.path ≡ message_path (a ∷ account) (b ∷ queue) (i ∷ id)
      → verb_of d.verb ≡ Routes.delete
      → d.query (codes "popreceipt") ≡ v.pop_receipt
      → ((serve_http lib c env r s).1 ≡ record (plain_response 200) {
        payload = messages_xml (
            map (dequeued_view lib) (
              lease_all env.now
                (asked_timeout lib r)
                env.new_pop_receipt
                0
                (take (asked_number lib r) (deliverable env.now q.messages))));
      })
        × ((serve_http lib c later d (serve_http lib c env r s).0).1 ≡ plain_response 204)
        × (q' : Queue) × (find_queue
              (a ∷ account)
              (b ∷ queue)
              (serve_http lib c later d (serve_http lib c env r s).0).0.accounts
            ≡ some q')
        × (find_message (i ∷ id) q'.messages ≡ none)
  unfolding dequeued_view evict_expired
  delete-get env later a b i account queue id r d s q views v na nq ni path verb few take_them h
        distinct seen there is_id lasts path' verb' receipt =
      let num = asked_number lib r in
      let timeout = asked_timeout lib r in
      let out =
        (dequeue_loop env.now timeout env.new_pop_receipt num 0
          (evict_expired env.now q).messages).1 in
      let e = dequeue_result c env (a ∷ account) (b ∷ queue) num timeout s q h in
      let got = serve_http-get env a b account queue r s out na nq path verb few take_them e in
      let (m, taken, shown) =
        handed_out env a b account queue r s out views v (ap (λ p. p.1) got) seen there in
      let id_m : m.id ≡ i ∷ id = ap (λ x. x.message_id) shown ∙ is_id in
      let unexpired =
        All-of_mem _ _
          (dequeue_loop-Lasts env.now timeout env.new_pop_receipt num 0 later.now (i ∷ id) _
            (All-keep _ _ q.messages lasts))
          taken in
      let live : expired later.now m ≡ false =
        ground (arith, unexpired, bytes_eq_iff m.id (i ∷ id), id_m) in
      let (gone_ok, q', here, gone) =
        delete_message-dequeue c env later (a ∷ account) (b ∷ queue) num timeout s q out m h
          distinct e taken live in
      let deleted =
        serve_http-delete later a b i account queue id d m _ na nq ni id_m path' verb'
          (receipt ∙ sym (ap (λ x. x.pop_receipt) shown)) gone_ok in
      let handed = (dequeue-eq-lease_all c env (a ∷ account) (b ∷ queue) num timeout s q h).0 in
      (
        ap (λ p. p.1)
            (serve_http-get env a b account queue r s _ na nq path verb few take_them handed),
        ap (λ p. (serve_http lib c later d p.0).1) got ∙ ap (λ p. p.1) deleted,
        q',
        ap (λ p. find_queue (a ∷ account) (b ∷ queue) (serve_http lib c later d p.0).0.accounts) got
            ∙ ap (λ p. find_queue (a ∷ account) (b ∷ queue) p.0.accounts) deleted
            ∙ here,
        rw (sym id_m) gone,
      )
