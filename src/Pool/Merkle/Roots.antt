-- ===== src/Pool/Merkle/Roots.antt =====
-- The ring of recent roots: `is_known_root` and `get_last_root` of merkle_with_history.rs.
use native.Mathlib.Decide.{dec_le, ℕ_discrete}
use veil_contract.Prelude.{
  ℕ, zero, suc, ◌+◌, ◌-◌, ◌%◌, ◌^◌, ◌≤◌, ◌<◌, ◌≡◌, ◌≢◌, ◌⊎◌, ◌↔◌, ◌∙◌, sym, ap, refl, inl, inr,
  Bool, true, false, some, List, ◌∷◌, get_elem?, update, update_self, update_ne, ◌>>=◌, Bool-cases,
  Option-cases, ok, ok_or, arith, lt→ltb, ==_iff, ne→==,
}
use veil_contract.Pool.Merkle.{
  Store, root_history_size, not_initialized, holds_root, scan_roots, is_known_root, get_last_root,
}

-- `history` lists every root that the tree has had, the latest first; the ring holds its last 90.
pub record RootRing (history : List ℕ) (s : Store) : Type 0 where
  pub index : ℕ
  pub at : s.current_root_index ≡ some index
  pub in_range : index < root_history_size
  pub held : (k : ℕ) → k < root_history_size → s.root ((index + 90 - k) % 90) ≡ get_elem? history k

module _ (s : Store) (root current : ℕ) where
  scan_found :
      (rounds i : ℕ)
      → holds_root s root i ≡ true
      → scan_roots (suc rounds) s root current i ≡ ok true
  unfolding scan_roots
  scan_found rounds i h = rw h

  scan_last :
      (rounds i : ℕ)
      → holds_root s root i ≡ false
      → i < 90
      → (i + 1) % 90 ≡ current
      → scan_roots (suc rounds) s root current i ≡ ok false
  unfolding scan_roots
  scan_last rounds i h lt e =
      rw (h, lt→ltb (i + 1) (2 ^ 32) (omega arith), (==_iff ((i + 1) % 90) current).1 e)

  scan_next :
      (rounds i : ℕ)
      → holds_root s root i ≡ false
      → i < 90
      → (i + 1) % 90 ≢ current
      → scan_roots (suc rounds) s root current i ≡ scan_roots rounds s root current ((i + 1) % 90)
  unfolding scan_roots
  scan_next rounds i h lt e =
      rw (h, lt→ltb (i + 1) (2 ^ 32) (omega arith), ne→== ((i + 1) % 90) current e)

  -- What a scan with `rounds` rounds left finds.
  abbrev Scanned : ℕ → Type 0
  Scanned rounds =
      ((scan_roots rounds s root current ((current + (90 - rounds)) % 90) ≡ ok true)
        × (t : ℕ) × (t < 90)
        × (holds_root s root ((current + t) % 90) ≡ true))
      ⊎ ((scan_roots rounds s root current ((current + (90 - rounds)) % 90) ≡ ok false)
          × ((t : ℕ) → 90 - rounds ≤ t → t < 90 → holds_root s root ((current + t) % 90) ≡ false))

  scan_missed :
      (rounds : ℕ)
      → current < 90
      → suc rounds ≤ 90
      → holds_root s root ((current + (90 - suc rounds)) % 90) ≡ false
      → (0 < rounds → Scanned rounds)
      → Scanned (suc rounds)
  scan_missed zero hc le h rest =
      inr (scan_last 0 _ h (omega arith) (omega arith), λ t lo hi. rw (the_t t lo hi) h)
    where
      the_t : (t : ℕ) → 89 ≤ t → t < 90 → t ≡ 89
      the_t t lo hi = omega arith
  scan_missed (suc rounds) hc le h rest = elim (rest (omega arith)) [
    | inl (found, t, lt, here) ↦ inl (step ∙ found, t, lt, here)
    | inr (missed, none_later) ↦ inr (
      step ∙ missed,
      λ t lo hi. elim (dec_le (90 - suc rounds) t) [
        | yes later ↦ none_later t later hi
        | no now ↦ rw (the_t t lo now) h
      ],
    )
  ]
    where
      i : ℕ
      i = (current + (90 - suc (suc rounds))) % 90

      next : (i + 1) % 90 ≡ (current + (90 - suc rounds)) % 90
      next = omega arith

      step :
          scan_roots (suc (suc rounds)) s root current i
          ≡ scan_roots (suc rounds) s root current ((current + (90 - suc rounds)) % 90)
      step =
          scan_next (suc rounds) i h (omega arith) (omega arith)
          ∙ ap (scan_roots (suc rounds) s root current) next

      the_t :
          (t : ℕ) → 90 - suc (suc rounds) ≤ t → ¬ (90 - suc rounds ≤ t) → t ≡ 90 - suc (suc rounds)
      the_t t lo now = omega arith

  scan_roots-Scanned : (rounds : ℕ) → current < 90 → 0 < rounds → rounds ≤ 90 → Scanned rounds
  scan_roots-Scanned zero hc pos le = absurd (omega arith)
  scan_roots-Scanned (suc rounds) hc pos le =
      let ih = λ (p : 0 < rounds). scan_roots-Scanned rounds hc p (omega arith) in
      elim (Bool-cases (holds_root s root ((current + (90 - suc rounds)) % 90))) [
        | inl here ↦ inl (scan_found rounds _ here, 90 - suc rounds, omega arith, here)
        | inr missed ↦ scan_missed rounds hc le missed ih
      ]

abbrev pub IsRecent : List ℕ → ℕ → Type 0
IsRecent history root = (k : ℕ) × (k < root_history_size) × (get_elem? history k ≡ some root)

holds_iff : (s : Store) (root i : ℕ) → (holds_root s root i ≡ true) ↔ (s.root i ≡ some root)
holds_iff s root i = elim (Option-cases (s.root i)) [
  | inl nothing ↦ rw nothing ((λ h. cc), (λ h. cc))
  | inr (r, e) ↦ rw e (ground arith, ground arith)
]

known_by_scan :
    (s : Store) (root index : ℕ)
    → root ≢ 0
    → s.current_root_index ≡ some index
    → is_known_root root s ≡ scan_roots 90 s root index index
unfolding is_known_root
known_by_scan s root index nonzero at =
    rw (ne→== root 0 nonzero)
      (ap (λ c. ok_or c not_initialized >>= λ i. scan_roots 90 s root i i) at)

known_zero : (s : Store) (root : ℕ) → root ≡ 0 → is_known_root root s ≡ ok false
unfolding is_known_root
known_zero s root e = rw e

module _ (history : List ℕ) (s : Store) (root : ℕ) (ring : RootRing history s) where
  open ring use {index, at, in_range, held}

  slot-IsRecent : (t : ℕ) → t < 90 → s.root ((index + t) % 90) ≡ some root → IsRecent history root
  slot-IsRecent t lt e = (
    (90 - t) % 90,
    omega arith,
    sym (held ((90 - t) % 90) (omega arith)) ∙ ap s.root (omega arith) ∙ e,
  )

  slot_of_recent :
      (recent : IsRecent history root) → s.root ((index + (90 - recent.0) % 90) % 90) ≡ some root
  slot_of_recent (k, lt, e) = ap s.root (omega arith) ∙ held k lt ∙ e

  known_of_scan :
      Scanned s root index 90
      → (b : Bool) × (scan_roots 90 s root index index ≡ ok b)
        × ((b ≡ true → IsRecent history root) × (IsRecent history root → b ≡ true))
  known_of_scan (inl (found, t, lt, here)) = (
    true,
    ap (scan_roots 90 s root index) start ∙ found,
    ((λ _. slot-IsRecent t lt ((holds_iff s root ((index + t) % 90)).0 here)), (λ _. refl)),
  )
    where
      start : index ≡ (index + (90 - 90)) % 90
      start = omega arith
  known_of_scan (inr (missed, none_held)) = (
    false,
    ap (scan_roots 90 s root index) start ∙ missed,
    (
      (λ e. cc),
      (λ recent.
          sym (none_held ((90 - recent.0) % 90) (omega arith) (omega arith))
          ∙ (holds_iff s root ((index + (90 - recent.0) % 90) % 90)).1 (slot_of_recent recent)),
    ),
  )
    where
      start : index ≡ (index + (90 - 90)) % 90
      start = omega arith

  -- When the ring holds a history of roots, `is_known_root` returns, and finds exactly the last 90
  -- roots of the history other than zero.
  pub is_known_root_lem :
      (b : Bool) × (is_known_root root s ≡ ok b)
      × ((b ≡ true) ↔ ((root ≢ 0) × IsRecent history root))
  is_known_root_lem = elim (ℕ_discrete root 0) [
    | yes zero_root ↦
        (false, known_zero s root zero_root, ((λ e. cc), (λ r. absurd (r.0 zero_root))))
    | no nonzero ↦
        (let known =
            known_of_scan
              (scan_roots-Scanned s root index 90 in_range (omega arith) (omega arith)) in
          (
            known.0,
            known_by_scan s root index nonzero at ∙ known.1,
            ((λ e. (nonzero, known.2.0 e)), (λ r. known.2.1 r.1)),
          ))
  ]

-- Writing the next slot puts a root at the head of the history.
pub push-RootRing :
    (history : List ℕ) (s s' : Store) (new : ℕ)
    → (ring : RootRing history s)
    → s'.current_root_index ≡ some ((ring.index + 1) % root_history_size)
    → s'.root ≡ update s.root ((ring.index + 1) % root_history_size) new
    → RootRing (new ∷ history) s'
push-RootRing history s s' new ring at' root' = record {
  index = (ring.index + 1) % 90;
  at = at';
  in_range = omega arith;
  held = held';
}
  where
    held' :
        (k : ℕ)
        → k < 90
        → s'.root (((ring.index + 1) % 90 + 90 - k) % 90) ≡ get_elem? (new ∷ history) k
    held' zero lt = rw root' (
        ap (update s.root ((ring.index + 1) % 90) new) (omega arith)
        ∙ update_self s.root ((ring.index + 1) % 90) new)
    held' (suc k) lt = rw root' (
        update_ne s.root ((ring.index + 1) % 90) (((ring.index + 1) % 90 + 90 - suc k) % 90) new
          (omega arith)
        ∙ ap s.root (omega arith)
        ∙ ring.held k (omega arith))

pub get_last_root_lem :
    (history : List ℕ) (s : Store)
    → RootRing history s
    → get_last_root s ≡ ok_or (get_elem? history 0) not_initialized
unfolding get_last_root
get_last_root_lem history s ring =
    rw ring.at
      (ap (λ r. ok_or r not_initialized) (ap s.root (omega arith) ∙ ring.held 0 (omega arith)))
