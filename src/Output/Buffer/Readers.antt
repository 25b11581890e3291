-- ===== src/Output/Buffer/Readers.antt =====
-- internal/fabric/output.go: what each step does to one reader.
use gozellij.Prelude.{
  ℕ, ◌+◌, ◌-◌, ◌≤◌, ◌≡◌, refl, sym, ap, subst, ◌∙◌, ◌⊎◌, inl, inr, true, false, List, [], ◌∷◌, ◌++◌,
  append-nil, append_assoc, arith, ltb, Bool-cases, length, drop, length-append,
}
use gozellij.Output.Subscriber.{
  Subscriber, close_channel, close_ch, send_chunk, offer, consumed, receive, buffered,
  subscriber_chunks,
}
use gozellij.Output.Buffer.{Emulator}
use gozellij.Output.Buffer
use gozellij.Output.Ring.Refine.{flatten, drop-append}

-- What holds of every subscriber that was ever attached to a buffer with that stream of output: it
-- began within the stream; what went into its channel is the stream from where it began, up to
-- some point, with nothing missing and nothing else; as long as it is attached it has not lagged,
-- its channel is open, and that point is the end of the stream; once it is not, its channel is
-- closed; and its channel was never misused.
pub record Sound (stream : List ℕ) (s : Subscriber) : Type 0 where
  pub starts : s.from ≤ length stream
  pub no_fault : s.ch.faulted ≡ false
  pub once : s.ch.closed ≡ s.close_done
  pub gapless : (rest : List ℕ) × (flatten s.ch.sent ++ rest ≡ drop s.from stream)
  pub status :
      ((s.attached ≡ true)
        × (s.lagged ≡ false)
        × (s.close_done ≡ false)
        × (flatten s.ch.sent ≡ drop s.from stream))
      ⊎ ((s.attached ≡ false) × (s.close_done ≡ true))

live :
    {stream : List ℕ} {s : Subscriber}
    → Sound stream s
    → s.attached ≡ true
    → (s.lagged ≡ false) × (s.close_done ≡ false) × (flatten s.ch.sent ≡ drop s.from stream)
live v a = elim v.status [ inl (_, l, d, e) ↦ (l, d, e) | inr (d, _) ↦ cc ]

ended :
    {stream : List ℕ} {s : Subscriber} → Sound stream s → s.attached ≡ false → s.close_done ≡ true
ended v d = elim v.status [ inl (a, _, _, _) ↦ cc | inr (_, e) ↦ e ]

flatten-snoc : (ps : List (List ℕ)) (p : List ℕ) → flatten (ps ++ p ∷ []) ≡ flatten ps ++ p
unfolding flatten
flatten-snoc [] p = append-nil p
flatten-snoc (q ∷ ps) p = ap (◌++◌ q) (flatten-snoc ps p) ∙ sym (append_assoc q (flatten ps) p)

-- The stream goes on while a subscriber stays as it is.
Sound-detached :
    (stream p : List ℕ) (s : Subscriber)
    → s.attached ≡ false
    → Sound stream s
    → Sound (stream ++ p) s
Sound-detached stream p s d v = record {
  starts = omega (arith, length-append stream p, v.starts);
  no_fault = v.no_fault;
  once = v.once;
  gapless = (
    v.gapless.0 ++ p,
    sym (append_assoc (flatten s.ch.sent) v.gapless.0 p)
        ∙ ap (λ u. u ++ p) v.gapless.1
        ∙ sym (drop-append s.from stream p v.starts),
  );
  status = inr (d, ended v d);
}

-- A reader that could not take the chunk: out of the map, its channel closed.
abbrev told : Subscriber → ℕ → Subscriber
told s queued = record s {
  attached = false;
  lagged = true;
  queued = queued;
  close_done = true;
  ch = record { sent = s.ch.sent; taken = s.ch.taken; closed = true; faulted = s.ch.faulted };
}

-- A reader that took the chunk.
abbrev given : Subscriber → ℕ → List ℕ → Subscriber
given s queued p = record s {
  queued = queued;
  ch = record {
    sent = s.ch.sent ++ p ∷ [];
    taken = s.ch.taken;
    closed = s.ch.closed;
    faulted = s.ch.faulted;
  };
}

Sound-told :
    (stream p : List ℕ) (s : Subscriber) (queued : ℕ)
    → s.attached ≡ true
    → Sound stream s
    → Sound (stream ++ p) (told s queued)
Sound-told stream p s q a v = record {
  starts = omega (arith, length-append stream p, v.starts);
  no_fault = v.no_fault;
  once = refl;
  gapless = (p, ap (λ u. u ++ p) (live v a).2 ∙ sym (drop-append s.from stream p v.starts));
  status = inr (refl, refl);
}

Sound-given :
    (stream p : List ℕ) (s : Subscriber) (queued : ℕ)
    → s.attached ≡ true
    → Sound stream s
    → Sound (stream ++ p) (given s queued p)
Sound-given stream p s q a v = record {
  starts = omega (arith, length-append stream p, v.starts);
  no_fault = v.no_fault;
  once = v.once;
  gapless = ([], append-nil _ ∙ grown);
  status = inl (a, (live v a).0, (live v a).1, grown);
}
  where
    grown : flatten (s.ch.sent ++ p ∷ []) ≡ drop s.from (stream ++ p)
    grown =
        flatten-snoc s.ch.sent p
        ∙ ap (λ u. u ++ p) (live v a).2
        ∙ sym (drop-append s.from stream p v.starts)

close_ch_lem :
    (s : Subscriber)
    → s.close_done ≡ false
    → s.ch.closed ≡ false
    → close_ch s ≡ record s {
      close_done = true;
      ch = record { sent = s.ch.sent; taken = s.ch.taken; closed = true; faulted = s.ch.faulted };
    }
unfolding close_ch close_channel
close_ch_lem s d c = ground arith

offer_cases :
    (s : Subscriber) (p : List ℕ)
    → s.lagged ≡ false
    → s.close_done ≡ false
    → s.ch.closed ≡ false
    → ((q : ℕ) × (offer s p ≡ record (told s q) { attached = s.attached }))
      ⊎ ((q : ℕ) × (offer s p ≡ given s q p))
unfolding offer send_chunk
offer_cases s p l d c = elim (Bool-cases (ltb s.max_bytes (s.queued + length p))) [
  | inl over ↦ inl (s.queued, ground (arith, close_ch_lem (record s { lagged = true }) d c))
  | inr fits ↦ elim (Bool-cases (ltb (buffered s.ch) subscriber_chunks)) [
    | inl room ↦ inr (s.queued + length p, ground arith)
    | inr full ↦ inl (
      s.queued + length p - length p,
      ground (
        arith,
        close_ch_lem (record s { lagged = true; queued = s.queued + length p - length p }) d c,
      ),
    )
  ]
]

module _ (E : Emulator) where
  write_told :
      (s : Subscriber) (p : List ℕ) (q : ℕ)
      → s.attached ≡ true
      → offer s p ≡ record (told s q) { attached = s.attached }
      → Buffer.prune_lagged E (Buffer.offer_attached E p s) ≡ told s q
  unfolding Buffer.prune_lagged Buffer.offer_attached
  write_told s p q a e = ground arith

  write_given :
      (s : Subscriber) (p : List ℕ) (q : ℕ)
      → s.attached ≡ true
      → s.lagged ≡ false
      → offer s p ≡ given s q p
      → Buffer.prune_lagged E (Buffer.offer_attached E p s) ≡ given s q p
  unfolding Buffer.prune_lagged Buffer.offer_attached
  write_given s p q a l e = ground arith

  write_detached :
      (s : Subscriber) (p : List ℕ)
      → s.attached ≡ false
      → Buffer.prune_lagged E (Buffer.offer_attached E p s) ≡ s
  unfolding Buffer.prune_lagged Buffer.offer_attached
  write_detached s p d = ground arith

  pub write-Sound :
      (stream p : List ℕ) (s : Subscriber)
      → Sound stream s
      → Sound (stream ++ p) (Buffer.prune_lagged E (Buffer.offer_attached E p s))
  write-Sound stream p s v = elim (Bool-cases s.attached) [
    | inr d ↦
        subst (Sound (stream ++ p)) (sym (write_detached s p d)) (Sound-detached stream p s d v)
    | inl a ↦ elim (offer_cases s p (live v a).0 (live v a).1 (v.once ∙ (live v a).1)) [
      | inl (q, e) ↦
          subst (Sound (stream ++ p)) (sym (write_told s p q a e)) (Sound-told stream p s q a v)
      | inr (q, e) ↦
          subst (Sound (stream ++ p)) (sym (write_given s p q a (live v a).0 e))
            (Sound-given stream p s q a v)
    ]
  ]

  pub drop_subscriber-Sound :
      (stream : List ℕ) (s : Subscriber)
      → Sound stream s
      → Sound stream (Buffer.drop_subscriber E s)
  unfolding Buffer.drop_subscriber
  drop_subscriber-Sound stream s v = elim (Bool-cases s.attached) [
    | inr d ↦ subst (Sound stream) {x = s} (ground arith) v
    | inl a ↦
        subst (Sound stream) {x = record (told s s.queued) { lagged = s.lagged }}
          (ground (arith, close_ch_lem s (live v a).1 (v.once ∙ (live v a).1)))
          (record {
            starts = v.starts;
            no_fault = v.no_fault;
            once = refl;
            gapless = v.gapless;
            status = inr (refl, refl);
          })
  ]

pub consumed-Sound :
    (stream : List ℕ) (n : ℕ) (s : Subscriber) → Sound stream s → Sound stream (consumed n s)
unfolding consumed
consumed-Sound stream n s v = record {
  starts = v.starts;
  no_fault = v.no_fault;
  once = v.once;
  gapless = v.gapless;
  status = v.status;
}

pub receive-Sound : (stream : List ℕ) (s : Subscriber) → Sound stream s → Sound stream (receive s)
unfolding receive
receive-Sound stream s v = elim (Bool-cases (ltb s.ch.taken (length s.ch.sent))) [
  | inr drained ↦ subst (Sound stream) {x = s} (ground arith) v
  | inl more ↦
      subst (Sound stream)
        {x = record s {
          ch = record {
            sent = s.ch.sent;
            taken = s.ch.taken + 1;
            closed = s.ch.closed;
            faulted = s.ch.faulted;
          };
        }}
        (ground arith)
        (record {
          starts = v.starts;
          no_fault = v.no_fault;
          once = v.once;
          gapless = v.gapless;
          status = v.status;
        })
]
