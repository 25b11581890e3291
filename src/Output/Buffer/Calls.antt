-- ===== src/Output/Buffer/Calls.antt =====
-- internal/fabric/output.go: what `Attach` hands over, open or closed.
use gozellij.Prelude.{
  ℕ, ◌≡◌, refl, ◌⊎◌, inl, inr, true, false, none, some, List, ◌∷◌, arith, Bool-cases, length,
  keep_last,
}
use gozellij.Output.Buffer.{Emulator, OutputBuffer, attach, Subscriber, new_subscriber}
use gozellij.Output.Buffer.Delivery.{Inv}

module _ (E : Emulator) where
  -- On a buffer that is open, `Attach` hands over the last bytes of the stream, as many as the
  -- buffer has room for, and a subscriber that is attached, has lagged nowhere and begins exactly
  -- at the stream's end, so that replay and live output meet without a gap or an overlap; on a
  -- closed buffer it fails and changes nothing.
  pub attach_lem :
      (capacity : ℕ) (stream : List ℕ) (o : OutputBuffer E) (queue_bytes : ℕ)
      → Inv E capacity stream o
      → ((o.closed ≡ true) × (attach E o queue_bytes ≡ (o, none)))
        ⊎ ((o.closed ≡ false)
            × (s : Subscriber) × ((attach E o queue_bytes).1 ≡ some (keep_last capacity stream, s))
            × ((attach E o queue_bytes).0.subs ≡ s ∷ o.subs)
            × (s.from ≡ length stream)
            × (s.attached ≡ true)
            × (s.lagged ≡ false))
  unfolding attach
  attach_lem capacity stream o q v = elim (Bool-cases o.closed) [
    | inl e ↦ inl (e, ground arith)
    | inr e ↦ inr (
      e,
      new_subscriber E o q,
      ground (arith, v.held),
      ground arith,
      unfold new_subscriber in v.counted,
      unfold new_subscriber in refl,
      unfold new_subscriber in refl,
    )
  ]
