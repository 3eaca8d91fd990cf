-- ===== src/ProofBytes.antt =====
-- Reading a Groth16 proof from bytes (contracts/types/src/lib.rs). A point is kept as its bytes, as
-- the pool's proof does. `Bytes` of the host is a list.
use mathlib.Core.Path.{subst}
use veil_contract.Prelude.{
  ℕ, zero, suc, ◌+◌, ◌-◌, ◌*◌, ◌≡◌, ◌≤◌, ◌↔◌, ◌∙◌, sym, ap, refl, not, ◌&&◌, List, [], ◌∷◌, ◌++◌,
  take, length, leb, ◌==◌, ==_iff, if◌then◌else◌, Outcome, ok, err, trap, refuse_if, ◌>>=◌, ◌>>◌,
  ok-injective, passed, arith, length-append, double_negation,
}
use veil_contract.Pool.Types.{Groth16Proof}
use veil_contract.Verifier.{Groth16Error, malformed_proof}

abbrev pub field_element_size : ℕ
field_element_size = 32

abbrev pub g1_size : ℕ
g1_size = field_element_size * 2

abbrev pub g2_size : ℕ
g2_size = field_element_size * 4

abbrev pub proof_size : ℕ
proof_size = g1_size + g2_size + g1_size

abbrev drop : ℕ → List ℕ → List ℕ
drop zero bytes = bytes
drop (suc n) [] = []
drop (suc n) (b ∷ bytes) = drop n bytes

-- `value.slice(from..to)`, which traps outside the bytes.
unfoldable pub slice : ℕ → ℕ → List ℕ → Outcome Groth16Error (List ℕ)
slice from to value =
    if leb from to && leb to (length value) then ok (take (to - from) (drop from value)) else trap

-- `try_into` a `BytesN` of a size, with its error.
unfoldable pub sized : ℕ → List ℕ → Outcome Groth16Error (List ℕ)
sized size value = if length value == size then ok value else err malformed_proof

unfoldable pub try_from : List ℕ → Outcome Groth16Error Groth16Proof
unfolding slice sized
try_from value = do
  refuse_if (not (length value == proof_size)) malformed_proof
  a ← slice 0 g1_size value >>= sized g1_size
  b ← slice g1_size (g1_size + g2_size) value >>= sized g2_size
  c ← slice (g1_size + g2_size) (length value) value >>= sized g1_size
  ok (record { a = a; b = b; c = c })

length-take : (n : ℕ) (xs : List ℕ) → n ≤ length xs → length (take n xs) ≡ n
length-take zero xs h = refl
length-take (suc n) [] h = absurd (omega arith)
length-take (suc n) (x ∷ xs) h = ap suc (length-take n xs (omega arith))

length-drop : (n : ℕ) (xs : List ℕ) → length (drop n xs) ≡ length xs - n
length-drop zero xs = omega arith
length-drop (suc n) [] = omega arith
length-drop (suc n) (x ∷ xs) = length-drop n xs ∙ omega arith

take_all : (n : ℕ) (xs : List ℕ) → length xs ≤ n → take n xs ≡ xs
take_all zero [] h = refl
take_all zero (x ∷ xs) h = absurd (omega arith)
take_all (suc n) [] h = refl
take_all (suc n) (x ∷ xs) h = ap (λ r. x ∷ r) (take_all n xs (omega arith))

take-append : (n : ℕ) (xs ys : List ℕ) → n ≡ length xs → take n (xs ++ ys) ≡ xs
take-append n [] ys h = rw h refl
take-append zero (x ∷ xs) ys h = absurd (omega arith)
take-append (suc n) (x ∷ xs) ys h = ap (λ r. x ∷ r) (take-append n xs ys (omega arith))

drop-append : (n m : ℕ) (xs ys : List ℕ) → n ≡ length xs + m → drop n (xs ++ ys) ≡ drop m ys
drop-append n m [] ys h = ap (λ k. drop k ys) (omega arith)
drop-append zero m (x ∷ xs) ys h = absurd (omega arith)
drop-append (suc n) m (x ∷ xs) ys h = drop-append n m xs ys (omega arith)

take-drop : (n : ℕ) (xs : List ℕ) → take n xs ++ drop n xs ≡ xs
take-drop zero xs = refl
take-drop (suc n) [] = refl
take-drop (suc n) (x ∷ xs) = ap (λ r. x ∷ r) (take-drop n xs)

-- The bytes of the three points, one after the other.
abbrev pub proof_bytes : Groth16Proof → List ℕ
proof_bytes p = p.a ++ (p.b ++ p.c)

-- A proof whose points have their sizes.
abbrev pub IsSized : Groth16Proof → Type 0
IsSized p = (length p.a ≡ 64) × (length p.b ≡ 128) × (length p.c ≡ 64)

try_from_run :
    (value : List ℕ)
    → length value ≡ 256
    → try_from value
      ≡ ok
          (record { a = take 64 value; b = take 128 (drop 64 value); c = take 64 (drop 192 value) })
unfolding try_from
try_from_run value full =
    let a = length-take 64 value (omega arith) in
    let b = length-take 128 (drop 64 value) (omega (arith, length-drop 64 value)) in
    let c = length-take 64 (drop 192 value) (omega (arith, length-drop 192 value)) in
    rw (full, a, b, c) refl

drop_nil : (n : ℕ) → drop n [] ≡ []
drop_nil zero = refl
drop_nil (suc n) = refl

drop-drop : (n m : ℕ) (xs : List ℕ) → drop (n + m) xs ≡ drop m (drop n xs)
drop-drop zero m xs = ap (λ k. drop k xs) (omega arith)
drop-drop (suc n) m [] = drop_nil (suc n + m) ∙ sym (drop_nil m)
drop-drop (suc n) m (x ∷ xs) =
    let shift : suc n + m ≡ suc (n + m) = omega arith in
    ap (λ k. drop k (x ∷ xs)) shift ∙ drop-drop n m xs

try_from-length : (value : List ℕ) (p : Groth16Proof) → try_from value ≡ ok p → length value ≡ 256
unfolding try_from
try_from-length value p h =
    (==_iff _ _).0 (double_negation _ (passed (not (length value == proof_size)) _ _ h).0)

try_from_only :
    (value : List ℕ) (p : Groth16Proof)
    → try_from value ≡ ok p
    → IsSized p × (proof_bytes p ≡ value)
try_from_only value p h =
    let full = try_from-length value p h in
    let e : record { a = take 64 value; b = take 128 (drop 64 value); c = take 64 (drop 192 value) }
        ≡ p =
      ok-injective (sym (try_from_run value full) ∙ h) in
    subst (λ q. IsSized q × (proof_bytes q ≡ value)) e
      (
        (
          length-take 64 value (omega arith),
          length-take 128 (drop 64 value) (omega (arith, length-drop 64 value)),
          length-take 64 (drop 192 value) (omega (arith, length-drop 192 value)),
        ),
        ap (λ r. take 64 value ++ (take 128 (drop 64 value) ++ r))
              (take_all 64 (drop 192 value) (omega (arith, length-drop 192 value))
                ∙ drop-drop 64 128 value)
            ∙ ap (λ r. take 64 value ++ r) (take-drop 128 (drop 64 value))
            ∙ take-drop 64 value,
      )

try_from-proof_bytes : (p : Groth16Proof) → IsSized p → try_from (proof_bytes p) ≡ ok p
try_from-proof_bytes p (sa, sb, sc) =
    try_from_run (proof_bytes p)
      (omega (arith, length-append p.a (p.b ++ p.c), length-append p.b p.c))
    ∙ cc (
      take-append 64 p.a (p.b ++ p.c) (sym sa),
      drop-append 64 0 p.a (p.b ++ p.c) (omega arith),
      take-append 128 p.b p.c (sym sb),
      drop-append 192 128 p.a (p.b ++ p.c) (omega arith),
      drop-append 128 0 p.b p.c (omega arith),
      take_all 64 p.c (omega arith),
    )

-- A proof is read from bytes exactly if these are the bytes of its three points, one after the other,
-- of 64, 128 and 64 bytes; so nothing but 256 bytes is read, and no byte is lost.
pub try_from_lem :
    (value : List ℕ) (p : Groth16Proof)
    → (try_from value ≡ ok p) ↔ (IsSized p × (proof_bytes p ≡ value))
try_from_lem value p = (
  (λ h. try_from_only value p h),
  λ (sized_points, whole).
      subst (λ bytes. try_from bytes ≡ ok p) whole (try_from-proof_bytes p sized_points),
)
