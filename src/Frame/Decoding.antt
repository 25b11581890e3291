-- ===== src/Frame/Decoding.antt =====
-- internal/ipc/frame.go: what a reader accepts, and what it says of a stream cut short.
use gozellij.Prelude.{
  ℕ, ◌+◌, ◌≤◌, ◌<◌, ◌≡◌, refl, sym, ap, ap₂, subst, ◌∙◌, ◌⊎◌, inl, inr, true, List, [], ◌∷◌, ◌++◌,
  append_assoc, arith, leb, Bool-cases, length, length-take, take-append-drop, leb→le,
}
use gozellij.Frame.{
  ReadFull, full, at_end, short, valid, max_frame_size, be32, uint32, frame_bytes, read_full,
  split_body, read_body, read_announced, read_frame, ok, Received, full,
}

-- What `io.ReadFull` returned whole is what stood at the front of the stream.
read_full_inv : (n : ℕ) (s b r : List ℕ) → read_full n s ≡ full b r → (s ≡ b ++ r) × (length b ≡ n)
unfolding read_full
read_full_inv n s b r h = elim (Bool-cases (leb n (length s))) [
  | inl enough ↦ ground (arith, take-append-drop n s, length-take n s, leb→le n (length s) enough)
  | inr few ↦ ground arith
]

ReadFull-cases :
    (v : ReadFull) → ((b : List ℕ) × (r : List ℕ) × (v ≡ full b r)) ⊎ ((v ≡ at_end) ⊎ (v ≡ short))
ReadFull-cases (full b r) = inl (b, r, refl)
ReadFull-cases at_end = inr (inl refl)
ReadFull-cases short = inr (inr refl)

abbrev pub AllBytes : List ℕ → Type 0
AllBytes [] = Unit {0}
AllBytes (b ∷ s) = (b < 256) × AllBytes s

AllBytes-left : (xs ys : List ℕ) → AllBytes (xs ++ ys) → AllBytes xs
AllBytes-left [] ys h = tt
AllBytes-left (x ∷ xs) ys h = (h.0, AllBytes-left xs ys h.1)

be32-uint32 : (b : List ℕ) → length b ≡ 4 → AllBytes b → be32 (uint32 b) ≡ b
unfolding be32 uint32
be32-uint32 [] h a = absurd (omega arith)
be32-uint32 (x ∷ []) h a = absurd (omega arith)
be32-uint32 (x ∷ y ∷ []) h a = absurd (omega arith)
be32-uint32 (x ∷ y ∷ z ∷ []) h a = absurd (omega arith)
be32-uint32 (x ∷ y ∷ z ∷ w ∷ []) h (p, (q, (r, (s, _)))) = ground arith
be32-uint32 (x ∷ y ∷ z ∷ w ∷ v ∷ b) h a = absurd (omega arith)

-- A body that gave a frame is its kind and its payload.
split_body_inv :
    (b r : List ℕ) (f : Received)
    → split_body b r ≡ ok f
    → (valid f.kind ≡ true) × (b ≡ f.kind ∷ f.payload) × (r ≡ f.rest)
unfolding split_body
split_body_inv [] r f h = ground arith
split_body_inv (k ∷ p) r f h = ground arith

read_body_inv :
    (n : ℕ) (s : List ℕ) (f : Received)
    → read_body n s ≡ ok f
    → (valid f.kind ≡ true) × (s ≡ f.kind ∷ f.payload ++ f.rest) × (n ≡ length f.payload + 1)
unfolding read_body
read_body_inv n s f h = elim (ReadFull-cases (read_full n s)) [
  | inl (b, r, e) ↦
      ground (arith, read_full_inv n s b r e, split_body_inv b r f (sym (rw (e, read_body)) ∙ h))
  | inr (inl e) ↦ ground arith
  | inr (inr e) ↦ ground arith
]

read_announced_inv :
    (n : ℕ) (s : List ℕ) (f : Received)
    → read_announced n s ≡ ok f
    → (n ≤ max_frame_size) × (read_body n s ≡ ok f)
unfolding read_announced
read_announced_inv n s f h = ground arith

read_frame_inv :
    (s : List ℕ) (f : Received)
    → read_frame s ≡ ok f
    → (h : List ℕ) × (r : List ℕ) × (read_full 4 s ≡ full h r)
      × (read_announced (uint32 h) r ≡ ok f)
unfolding read_frame
read_frame_inv s f h = elim (ReadFull-cases (read_full 4 s)) [
  | inl (b, r, e) ↦ (b, r, e, sym (rw (e, read_frame)) ∙ h)
  | inr (inl e) ↦ ground arith
  | inr (inr e) ↦ ground arith
]

-- Of a stream of bytes, a reader accepts only what a writer writes: a frame that it returns has a
-- valid kind and a size within the limit, and the stream was that frame's bytes, header included,
-- with what the reader left behind them.
pub read_frame_sound :
    (s : List ℕ) (f : Received)
    → AllBytes s
    → read_frame s ≡ ok f
    → (valid f.kind ≡ true)
      × (length f.payload + 1 ≤ max_frame_size)
      × (s ≡ frame_bytes f.kind f.payload ++ f.rest)
unfolding frame_bytes
read_frame_sound s f a h =
    let (b, r, e, h') = read_frame_inv s f h in
    let (s_eq, len) = read_full_inv 4 s b r e in
    let (small, h'') = read_announced_inv (uint32 b) r f h' in
    let (v, r_eq, n_eq) = read_body_inv (uint32 b) r f h'' in
    let header = be32-uint32 b len (AllBytes-left b r (subst AllBytes s_eq a)) in
    (
      v,
      omega (arith, n_eq, small),
      s_eq
          ∙ ap₂ ◌++◌ (sym header ∙ ap be32 n_eq) r_eq
          ∙ sym (append_assoc (be32 (length f.payload + 1)) (f.kind ∷ f.payload) f.rest),
    )
