-- ===== src/Output/Buffer/Delivery.antt =====
-- internal/fabric/output.go: the buffer keeps the end of the stream, and no reader misses a byte
-- without being told.
use gozellij.Prelude.{
  All, All-map, ℕ, ◌+◌, ◌≡◌, refl, sym, ap, ap₂, subst, ◌∙◌, ◌⊎◌, inl, inr, List, [], ◌∷◌, ◌++◌,
  map, append-nil, append_assoc, arith, ◌==◌, if◌then◌else◌, Bool-cases, length, drop, keep_last,
  length-append, length-drop,
}
use gozellij.Output.Ring.{snapshot}
use gozellij.Output.Ring.Window.{IsValid}
use gozellij.Output.Buffer.Readers.{
  Sound, write-Sound, drop_subscriber-Sound, consumed-Sound, receive-Sound,
}
use gozellij.Output.Buffer.{
  attaches, detaches, consumes, receives, resizes, closes, Emulator, OutputBuffer, write, Event,
  writes, step, draw_locked, append, new_subscriber, attach, prune_lagged, offer_attached,
  Subscriber, on_subscriber, close, set_size, detach, run, default_output_bytes, new_output_buffer,
  drop_subscriber,
}
use gozellij.Output.Ring.Refine.{
  length-eq_zero, flatten, length-append_buf, append-IsValid, snapshot-append, keep_last-keep_last,
  length-empty, empty-IsValid, snapshot-empty,
}

drop_end : (n : ℕ) (xs : List ℕ) → n ≡ length xs → drop n xs ≡ []
drop_end n xs e = length-eq_zero (drop n xs) (omega (arith, length-drop n xs))

module _ (E : Emulator) where
  -- What an event adds to the stream of output: a write that is accepted.
  pub said : OutputBuffer E → Event E → List ℕ
  said o (writes p) = if o.closed then [] else p
  said o _ = []

  pub stream_of : OutputBuffer E → List (Event E) → List ℕ
  stream_of o [] = []
  stream_of o (e ∷ es) = said o e ++ stream_of (step E o e) es

  -- The buffer holds the last bytes of the stream, as many as fit, counts all of it, and every
  -- subscriber is `Sound`.
  pub record Inv (capacity : ℕ) (stream : List ℕ) (o : OutputBuffer E) : Type 0 where
    pub room : length o.ring.buf ≡ capacity
    pub ring_valid : IsValid o.ring
    pub held : snapshot o.ring ≡ keep_last capacity stream
    pub counted : o.written ≡ length stream
    pub sound : All (Sound stream) o.subs

  Inv-same :
      (capacity : ℕ) (stream : List ℕ) (o o' : OutputBuffer E)
      → o'.ring ≡ o.ring
      → o'.written ≡ o.written
      → All (Sound stream) o'.subs
      → Inv capacity stream o
      → Inv capacity (stream ++ []) o'
  Inv-same capacity stream o o' r w a v = rw append-nil (record {
    room = ap (λ x. length x.buf) r ∙ v.room;
    ring_valid = subst IsValid (sym r) v.ring_valid;
    held = ap snapshot r ∙ v.held;
    counted = w ∙ v.counted;
    sound = a;
  })

  ring-draw_locked : (o : OutputBuffer E) (p : List ℕ) → (draw_locked E o p).ring ≡ o.ring
  unfolding draw_locked
  ring-draw_locked o p = ground arith

  write_open-Inv :
      (capacity : ℕ) (stream p : List ℕ) (o o' : OutputBuffer E)
      → o'.ring ≡ append o.ring p
      → o'.written ≡ o.written + length p
      → o'.subs ≡ map (λ s. prune_lagged E (offer_attached E p s)) o.subs
      → Inv capacity stream o
      → Inv capacity (stream ++ p) o'
  write_open-Inv capacity stream p o o' r w m v = record {
    room = ap (λ x. length x.buf) r ∙ length-append_buf o.ring p ∙ v.room;
    ring_valid = subst IsValid (sym r) (append-IsValid p v.ring_valid);
    held =
        ap snapshot r
        ∙ snapshot-append o.ring p v.ring_valid
        ∙ ap₂ (λ n s. keep_last n (s ++ p)) v.room v.held
        ∙ keep_last-keep_last capacity stream p;
    counted = omega (arith, w, v.counted, length-append stream p);
    sound =
        subst (All (Sound (stream ++ p))) (sym m)
          (All-map (Sound stream) (Sound (stream ++ p)) _ o.subs (write-Sound E stream p) v.sound);
  }

  -- How a write looks from the fields that the invariant reads.
  write_cases :
      (o : OutputBuffer E) (p : List ℕ)
      → ((write E o p).0 ≡ o) × (said o (writes p) ≡ [])
        ⊎ ((write E o p).0.ring ≡ append o.ring p)
          × ((write E o p).0.written ≡ o.written + length p)
          × ((write E o p).0.subs ≡ map (λ s. prune_lagged E (offer_attached E p s)) o.subs)
          × (said o (writes p) ≡ p)
  unfolding write said
  write_cases o [] = inl (ground arith, ground arith)
  write_cases o (c ∷ p) = elim (Bool-cases o.closed) [
    | inl closed ↦ inl (ground arith, ground arith)
    | inr live ↦ inr (ground arith, ground arith, ground arith, ground arith)
  ]

  write-Inv :
      (capacity : ℕ) (stream p : List ℕ) (o : OutputBuffer E)
      → Inv capacity stream o
      → Inv capacity (stream ++ said o (writes p)) (write E o p).0
  write-Inv capacity stream p o v = elim (write_cases o p) [
    | inl (same, none_said) ↦ rw none_said (
        Inv-same capacity stream o (write E o p).0 (ap (λ x. x.ring) same)
          (ap (λ x. x.written) same) (subst (λ x. All (Sound stream) x.subs) (sym same) v.sound) v)
    | inr (r, w, m, all_said) ↦
        rw all_said (write_open-Inv capacity stream p o (write E o p).0 r w m v)
  ]

  -- A new subscriber begins at the end of the stream, with nothing sent.
  new_subscriber-Sound :
      (capacity : ℕ) (stream : List ℕ) (o : OutputBuffer E) (n : ℕ)
      → Inv capacity stream o
      → Sound stream (new_subscriber E o n)
  unfolding new_subscriber flatten
  new_subscriber-Sound capacity stream o n v = record {
    starts = omega (arith, v.counted);
    no_fault = refl;
    once = refl;
    gapless = ([], sym (drop_end o.written stream v.counted));
    status = inl (refl, refl, refl, sym (drop_end o.written stream v.counted));
  }

  attach-Inv :
      (capacity : ℕ) (stream : List ℕ) (o : OutputBuffer E) (n : ℕ)
      → Inv capacity stream o
      → Inv capacity (stream ++ []) (attach E o n).0
  unfolding attach
  attach-Inv capacity stream o n v = elim (Bool-cases o.closed) [
    | inl e ↦
        Inv-same capacity stream o (attach E o n).0 (ground arith) (ground arith)
          (subst (All (Sound stream)) {x = o.subs} (ground arith) v.sound) v
    | inr e ↦
        Inv-same capacity stream o (attach E o n).0 (ground arith) (ground arith)
          (subst (All (Sound stream)) {x = new_subscriber E o n ∷ o.subs} (ground arith)
            (new_subscriber-Sound capacity stream o n v, v.sound))
          v
  ]

  one-Sound :
      (stream : List ℕ) (id : ℕ) (f : Subscriber → Subscriber)
      → ((s : Subscriber) → Sound stream s → Sound stream (f s))
      → (s : Subscriber) → Sound stream s
      → Sound stream (if s.id == id then f s else s)
  one-Sound stream id f h s v = elim (Bool-cases (s.id == id)) [
    | inl e ↦ subst (Sound stream) {x = f s} (ground arith) (h s v)
    | inr e ↦ subst (Sound stream) {x = s} (ground arith) v
  ]

  on_subscriber-Inv :
      (capacity : ℕ) (stream : List ℕ) (o : OutputBuffer E) (id : ℕ) (f : Subscriber → Subscriber)
      → ((s : Subscriber) → Sound stream s → Sound stream (f s))
      → Inv capacity stream o
      → Inv capacity (stream ++ []) (on_subscriber E id f o)
  unfolding on_subscriber
  on_subscriber-Inv capacity stream o id f h v =
      Inv-same capacity stream o (on_subscriber E id f o) refl refl
        (All-map (Sound stream) (Sound stream) (λ s. if s.id == id then f s else s) o.subs
          (one-Sound stream id f h) v.sound)
        v

  close-Inv :
      (capacity : ℕ) (stream : List ℕ) (o : OutputBuffer E)
      → Inv capacity stream o
      → Inv capacity (stream ++ []) (close E o)
  unfolding close
  close-Inv capacity stream o v = elim (Bool-cases o.closed) [
    | inl e ↦
        Inv-same capacity stream o (close E o) (ground arith) (ground arith)
          (subst (All (Sound stream)) {x = o.subs} (ground arith) v.sound) v
    | inr e ↦
        Inv-same capacity stream o (close E o) (ground arith) (ground arith)
          (subst (All (Sound stream)) {x = map (drop_subscriber E) o.subs} (ground arith) (
            All-map (Sound stream) (Sound stream) (drop_subscriber E) o.subs
              (drop_subscriber-Sound E stream) v.sound))
          v
  ]

  set_size-Inv :
      (capacity : ℕ) (stream : List ℕ) (o : OutputBuffer E) (cols rows : ℕ)
      → Inv capacity stream o
      → Inv capacity (stream ++ []) (set_size E o cols rows)
  unfolding set_size
  set_size-Inv capacity stream o cols rows v =
      Inv-same capacity stream o (set_size E o cols rows) (ground arith) (ground arith)
        (subst (All (Sound stream)) {x = o.subs} (ground arith) v.sound) v

  pub step-Inv :
      (capacity : ℕ) (stream : List ℕ) (o : OutputBuffer E) (e : Event E)
      → Inv capacity stream o
      → Inv capacity (stream ++ said o e) (step E o e)
  unfolding step said detach
  step-Inv capacity stream o (writes p) v = write-Inv capacity stream p o v
  step-Inv capacity stream o (attaches n) v = attach-Inv capacity stream o n v
  step-Inv capacity stream o (detaches id) v =
      on_subscriber-Inv capacity stream o id _ (drop_subscriber-Sound E stream) v
  step-Inv capacity stream o (consumes id n) v =
      on_subscriber-Inv capacity stream o id _ (consumed-Sound stream n) v
  step-Inv capacity stream o (receives id) v =
      on_subscriber-Inv capacity stream o id _ (receive-Sound stream) v
  step-Inv capacity stream o (resizes cols rows) v = set_size-Inv capacity stream o cols rows v
  step-Inv capacity stream o closes v = close-Inv capacity stream o v

  run-Inv :
      (capacity : ℕ) (stream : List ℕ) (es : List (Event E)) (o : OutputBuffer E)
      → Inv capacity stream o
      → Inv capacity (stream ++ stream_of o es) (run E o es)
  unfolding run stream_of
  run-Inv capacity stream [] o v = rw append-nil v
  run-Inv capacity stream (e ∷ es) o v =
      subst (λ s. Inv capacity s (run E (step E o e) es)) (append_assoc stream (said o e) _)
        (run-Inv capacity (stream ++ said o e) es (step E o e) (step-Inv capacity stream o e v))

  abbrev pub capacity_of : ℕ → ℕ
  capacity_of n = if n == 0 then default_output_bytes else n

  pub new-Inv : (n : ℕ) → Inv (capacity_of n) [] (new_output_buffer E n)
  unfolding new_output_buffer
  new-Inv n = record {
    room = length-empty (capacity_of n);
    ring_valid = empty-IsValid (capacity_of n) (ground arith);
    held = snapshot-empty (capacity_of n) ∙ sym (drop_end _ [] (omega arith));
    counted = refl;
    sound = tt;
  }

  -- Whatever happens to a new buffer, in any order (writes, readers that come, read, lag and go, a
  -- close), the bytes that it holds are the last of all that was written, as many as its capacity,
  -- its count is of all of them, and every reader that ever attached got the stream from where it
  -- began, without a gap: up to its end while it is attached, and otherwise up to some point, with
  -- its channel closed to say so. No channel is sent to or closed after it was closed.
  pub run-new_output_buffer :
      (n : ℕ) (es : List (Event E))
      → let o = run E (new_output_buffer E n) es in
        let stream = stream_of (new_output_buffer E n) es in
        (snapshot o.ring ≡ keep_last (capacity_of n) stream)
        × (o.written ≡ length stream)
        × All (Sound stream) o.subs
  run-new_output_buffer n es =
      let v = run-Inv (capacity_of n) [] es (new_output_buffer E n) (new-Inv n) in
      (v.held, v.counted, v.sound)
