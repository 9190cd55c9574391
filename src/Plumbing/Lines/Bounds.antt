-- ===== src/Plumbing/Lines/Bounds.antt =====
-- How much of a text `truncate_bytes` keeps.
use lab_charts.Base.{
  ℕ, ◌+◌, ◌-◌, ◌≤◌, ◌<◌, inl, inr, [], ◌∷◌, ◌++◌, arith, leb, leb→le, leb→lt, Bool-cases, Text,
}
use lab_charts.Plumbing.Lines.{width, byte_length, decode_head, byte_marker, truncate_bytes}

-- the second text begins with the first
pub data IsPrefix : Text → Text → Type 0 where
  start : {t : Text} → IsPrefix [] t
  next : {c : ℕ} {s t : Text} → IsPrefix s t → IsPrefix (c ∷ s) (c ∷ t)

decode_head-IsPrefix : (n : ℕ) (t : Text) → IsPrefix (decode_head n t) t
unfolding decode_head
decode_head-IsPrefix n [] = start
decode_head-IsPrefix n (c ∷ cs) = elim (Bool-cases (leb (width c) n)) [
  | inl e ↦ rw e (next (decode_head-IsPrefix (n - width c) cs))
  | inr e ↦ rw e start
]

width-bounds : (c : ℕ) → (0 < width c) × (width c ≤ 4)
unfolding width
width-bounds c = ground arith

decode_head-le : (n : ℕ) (t : Text) → byte_length (decode_head n t) ≤ n
unfolding decode_head byte_length
decode_head-le n [] = omega arith
decode_head-le n (c ∷ cs) = ground (arith, decode_head-le (n - width c) cs)

decode_head-tight : (n : ℕ) (t : Text) → n < byte_length t → n < byte_length (decode_head n t) + 4
unfolding decode_head byte_length
decode_head-tight n [] h = omega arith
decode_head-tight n (c ∷ cs) h = ground (arith, decode_head-tight (n - width c) cs, width-bounds c)

-- What is left of a text: all of it where it fits, and else a part of it from its start that fits,
-- within three bytes of the limit, before the marker.
pub data IsTruncation (blob : Text) (max_bytes : ℕ) : Text → Type 0 where
  whole : byte_length blob ≤ max_bytes → IsTruncation blob max_bytes blob
  cut_short :
      (head : Text)
      → IsPrefix head blob
      → max_bytes < byte_length blob
      → byte_length head ≤ max_bytes
      → max_bytes < byte_length head + 4
      → IsTruncation blob max_bytes (head ++ byte_marker (byte_length blob - max_bytes))

pub truncate_bytes-IsTruncation :
    (blob : Text) (max_bytes : ℕ) → IsTruncation blob max_bytes (truncate_bytes blob max_bytes)
unfolding truncate_bytes byte_length
truncate_bytes-IsTruncation [] n = whole (omega arith)
truncate_bytes-IsTruncation (c ∷ cs) n = elim (Bool-cases (leb (byte_length (c ∷ cs)) n)) [
  | inl e ↦ rw e (whole (leb→le (byte_length (c ∷ cs)) n e))
  | inr e ↦
      let long = leb→lt (byte_length (c ∷ cs)) n e in
      rw e (
        cut_short (decode_head n (c ∷ cs)) (decode_head-IsPrefix n (c ∷ cs)) long
          (decode_head-le n (c ∷ cs)) (decode_head-tight n (c ∷ cs) long))
]
