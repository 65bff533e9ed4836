-- ===== src/Transfer/Chunks.antt =====
-- static/protocol.js, `TransferredFile.send`: how the data that is read from a file is cut.
use sozvon.Base.{
  ℕ, zero, suc, ◌≤◌, ◌≡◌, refl, ap, ap₂, ◌∙◌, List, [], ◌∷◌, ◌++◌, if◌then◌else◌, leb, ltb, length,
  take, drop, arith, All, take-append-drop, length-take, length-drop, Bool-cases, inl, inr,
  All-append,
}
use mathlib.Core.List.{append_assoc, append-nil}
use sozvon.Transfer.Object.{Bytes}

abbrev pub max_chunk : ℕ
max_chunk = 16384

-- The loop over `i`, with fuel; `rest` is what follows `i`.
unfoldable pub slices : ℕ → Bytes → List Bytes
slices zero rest = []
slices (suc fuel) rest =
    let more = slices fuel (drop max_chunk rest) in
    if ltb 0 (length rest) then take max_chunk rest ∷ more else []

-- What is written for one chunk that the file's reader gives.
unfoldable pub cut : Bytes → List Bytes
unfolding slices
cut bytes = if leb (length bytes) max_chunk then bytes ∷ [] else slices (length bytes) bytes

-- What is written for all the chunks of the file.
unfoldable pub cut_all : List Bytes → List Bytes
unfolding cut
cut_all [] = []
cut_all (chunk ∷ chunks) = cut chunk ++ cut_all chunks

abbrev pub concat : List Bytes → Bytes
concat [] = []
concat (c ∷ cs) = c ++ concat cs

pub concat-append : (xs ys : List Bytes) → concat (xs ++ ys) ≡ concat xs ++ concat ys
concat-append [] ys = refl
concat-append (x ∷ xs) ys = rw (concat-append xs ys, append_assoc) refl

abbrev pub IsPiece : Bytes → Type 0
IsPiece bytes = (1 ≤ length bytes) × (length bytes ≤ max_chunk)

slices-step :
    (fuel x : ℕ) (xs : Bytes)
    → slices (suc fuel) (x ∷ xs) ≡ take max_chunk (x ∷ xs) ∷ slices fuel (drop max_chunk (x ∷ xs))
unfolding slices
slices-step fuel x xs = ground arith

concat-slices : (fuel : ℕ) (rest : Bytes) → length rest ≤ fuel → concat (slices fuel rest) ≡ rest
unfolding slices
concat-slices zero [] h = refl
concat-slices zero (x ∷ xs) h = absurd (omega arith)
concat-slices (suc fuel) [] h = refl
concat-slices (suc fuel) (x ∷ xs) h =
    let more : concat (slices fuel (drop max_chunk (x ∷ xs))) ≡ drop max_chunk (x ∷ xs) =
      concat-slices fuel (drop max_chunk (x ∷ xs))
        (omega (arith, length-drop max_chunk (x ∷ xs))) in
    ap concat (slices-step fuel x xs)
    ∙ ap (λ (r : Bytes). take max_chunk (x ∷ xs) ++ r) more
    ∙ take-append-drop max_chunk (x ∷ xs)

slices-ArePieces : (fuel : ℕ) (rest : Bytes) → All IsPiece (slices fuel rest)
unfolding slices
slices-ArePieces zero rest = tt
slices-ArePieces (suc fuel) [] = tt
slices-ArePieces (suc fuel) (x ∷ xs) =
    let piece : IsPiece (take max_chunk (x ∷ xs)) = omega (arith, length-take max_chunk (x ∷ xs)) in
    let more = slices-ArePieces fuel (drop max_chunk (x ∷ xs)) in
    let all : All IsPiece (take max_chunk (x ∷ xs) ∷ slices fuel (drop max_chunk (x ∷ xs))) =
      (piece, more) in
    rw (slices-step fuel x xs) all

concat-cut : (bytes : Bytes) → concat (cut bytes) ≡ bytes
unfolding cut
concat-cut bytes = elim (Bool-cases (leb (length bytes) max_chunk)) [
  | inl e ↦ rw e (append-nil bytes)
  | inr e ↦ rw e (concat-slices (length bytes) bytes (omega arith))
]

cut-ArePieces : (bytes : Bytes) → 1 ≤ length bytes → All IsPiece (cut bytes)
unfolding cut
cut-ArePieces bytes h = elim (Bool-cases (leb (length bytes) max_chunk)) [
  | inl e ↦ rw e ((h, ground arith), tt)
  | inr e ↦ rw e (slices-ArePieces (length bytes) bytes)
]

abbrev pub IsSome : Bytes → Type 0
IsSome bytes = 1 ≤ length bytes

pub concat-cut_all : (chunks : List Bytes) → concat (cut_all chunks) ≡ concat chunks
unfolding cut_all
concat-cut_all [] = refl
concat-cut_all (c ∷ cs) =
    concat-append (cut c) (cut_all cs) ∙ ap₂ ◌++◌ (concat-cut c) (concat-cut_all cs)

pub cut_all-ArePieces : (chunks : List Bytes) → All IsSome chunks → All IsPiece (cut_all chunks)
unfolding cut_all
cut_all-ArePieces [] h = tt
cut_all-ArePieces (c ∷ cs) h =
    All-append IsPiece (cut c) (cut_all cs) (cut-ArePieces c h.0) (cut_all-ArePieces cs h.1)

-- The pieces written for a file whose reader gives the chunks `chunks`, none of them empty, are in
-- order the whole file, and each has between 1 and 16384 bytes.
pub cut_all_lem :
    (chunks : List Bytes)
    → All IsSome chunks
    → (concat (cut_all chunks) ≡ concat chunks) × All IsPiece (cut_all chunks)
cut_all_lem chunks h = (concat-cut_all chunks, cut_all-ArePieces chunks h)
