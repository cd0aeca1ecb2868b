-- ===== src/SbServer/Crash.antt =====
-- internal/servers/sbserver: the attach that cannot be echoed.
use localaz.Common.{
  Bytes, ℕ, zero, suc, Bool, true, false, not, [], none, Option-cases, inl, inr, ◌≡◌, refl, ap, ◌∙◌,
}
use localaz.Amqp.Types.{Value, null, Values, nil, cons}
use localaz.Amqp.Encode.{write_value, write_all, cons_trimmed, trim, encode_described_list}
use localaz.Amqp.Frame.{Frame, field, write_frame}
use localaz.SbServer.Helpers.{is_null}
use localaz.SbServer.Conn.{Conn, crashed, write_raw}
use localaz.SbServer.Attach.{new_link, attach_fields, registered, on_attach}

cons_trimmed_cons : (v w : Value) (ws : Values) → cons_trimmed v (cons w ws) ≡ cons v (cons w ws)
unfolding cons_trimmed
cons_trimmed_cons null w ws = refl
cons_trimmed_cons _ w ws = refl

-- the last value is there and is not nil
abbrev ends_kept : Values → Bool
ends_kept nil = false
ends_kept (cons v nil) = not (is_null v)
ends_kept (cons v (cons w ws)) = ends_kept (cons w ws)

cons_trimmed-last : (v : Value) → not (is_null v) ≡ true → cons_trimmed v nil ≡ cons v nil
unfolding cons_trimmed
cons_trimmed-last null h = absurd (cc)
cons_trimmed-last _ h = refl

trim-kept : (vs : Values) → ends_kept vs ≡ true → trim vs ≡ vs
unfolding trim
trim-kept nil h = refl
trim-kept (cons v nil) h = cons_trimmed-last v h
trim-kept (cons v (cons w ws)) h =
    ap (cons_trimmed v) (trim-kept (cons w ws) h) ∙ cons_trimmed_cons v w ws

-- one value that cannot be encoded is enough
write_all-none : (i : ℕ) (vs : Values) → write_value (field i vs) ≡ none → write_all vs ≡ none
unfolding write_all write_value field
write_all-none i nil h = absurd (cc)
write_all-none zero (cons v vs) h = rw (write_all, h) refl
write_all-none (suc i) (cons v vs) h = elim (Option-cases (write_value v)) [
  | inl e ↦ rw (write_all, e) refl
  | inr (bytes, e) ↦ rw (write_all, e, write_all-none i vs h) refl
]

write_frame-none :
    (typ channel code i : ℕ) (vs : Values) (payload : Bytes)
    → ends_kept vs ≡ true
    → write_value (field i vs) ≡ none
    → write_frame typ channel code vs payload ≡ none
unfolding write_frame encode_described_list
write_frame-none typ channel code i vs payload h k = rw (trim-kept vs h, write_all-none i vs k) refl

-- An attach whose snd-settle-mode is a value that the encoder does not know, such as an AMQP byte or
-- short, panics, on any connection: the handler echoes the field as it was decoded.
pub on_attach-crashed :
    (lower : Bytes → Bytes) (f : Frame) (c : Conn)
    → write_value (field 3 f.fields) ≡ none
    → on_attach lower f c ≡ crashed
unfolding on_attach write_raw attach_fields field
on_attach-crashed lower f c h = elim (Option-cases (registered lower (new_link f) c.broker)) [
  | inl e ↦ rw (on_attach, e) refl
  | inr (broker, e) ↦
      let fails : write_frame 0 f.channel 0x12 (attach_fields f) [] ≡ none =
        write_frame-none 0 f.channel 0x12 3 (attach_fields f) [] refl h in
      rw (on_attach, e, write_raw, fails) refl
]
