-- ===== src/Pool/Steps/Spending.antt =====
-- The nullifiers over sequences of the pool's calls.
use mathlib.Core.Path.{subst}
use veil_contract.Prelude.{
  ℕ, ◌≡◌, ◌≢◌, ◌∙◌, ◌⊎◌, inl, inr, sym, ap, Bool, true, false, List, [], ◌∷◌, Option, some, NatMap,
  ok, ok-injective, arith, All,
}
use veil_contract.Pool.Types.{Proof, ExtData, Storage, World, Host}
use veil_contract.Pool.Storage.{get_commitments, set_commitments}
use veil_contract.Pool.Settle.{has_mark, insert_outputs, mark_commitment_inserted}
use veil_contract.Pool.Settle.Checks.{AllDistinct}
use veil_contract.Pool.Settle.Effects.{Marked, spend-Marked}
use veil_contract.Pool.Settle.Trace.{Settled}
use veil_contract.Pool.Contract.{has_nullifier, transact, exit}
use veil_contract.Pool.Contract.Calls.{pay_in-keeps, transact-Transacted, exit-Exited}
use veil_contract.Pool.Invariant.Growth.{storage-Settled}
use veil_contract.Pool.Steps.{
  Step, registers, transacts, exits, updates_admin, updates_verifier, updates_asp_membership, Reach,
  here, next,
}
use veil_contract.Pool.Steps.Invariance.{other_calls_keep, nobody}

-- A call of `transact` or of `exit` that succeeds.
abbrev pub Spends : Host → Proof → ExtData → ℕ → World → World → Type 0
Spends host proof ext_data sender w w' =
    (transact host proof ext_data sender w ≡ ok w') ⊎ (exit host proof ext_data sender w ≡ ok w')

abbrev pub IsIn : ℕ → List ℕ → Type 0
IsIn n [] = ⊥
IsIn n (m ∷ ms) = (n ≡ m) ⊎ IsIn n ms

All-at : (P : ℕ → Type 0) (n : ℕ) (ns : List ℕ) → All P ns → IsIn n ns → P n
All-at P n [] h i = absurd i
All-at P n (m ∷ ms) h (inl e) = subst P (sym e) h.0
All-at P n (m ∷ ms) h (inr i) = All-at P n ms h.1 i

All-map : (P Q : ℕ → Type 0) (ns : List ℕ) → ((n : ℕ) → P n → Q n) → All P ns → All Q ns
All-map P Q [] f h = tt
All-map P Q (n ∷ ns) f h = (f n h.0, All-map P Q ns f h.1)

spent_iff :
    (n : ℕ) (s : Storage) (m : NatMap Bool)
    → s.nullifiers ≡ some m
    → has_nullifier n s ≡ ok (has_mark m n)
unfolding has_nullifier
spent_iff n s m e = rw e

same_answer :
    (n : ℕ) (s s' : Storage) → s'.nullifiers ≡ s.nullifiers → has_nullifier n s' ≡ has_nullifier n s
unfolding has_nullifier
same_answer n s s' e = rw e

insert_keeps_nullifiers :
    (host : Host) (insert : Bool) (proof : Proof) (s s' : Storage) (x : Option (ℕ × ℕ))
    → insert_outputs host insert proof s ≡ ok (x, s')
    → s'.nullifiers ≡ s.nullifiers
unfolding insert_outputs mark_commitment_inserted get_commitments set_commitments
insert_keeps_nullifiers host false proof s s' x h =
    ap (λ (p : Option (ℕ × ℕ) × Storage). p.1.nullifiers) (sym (ok-injective h))
insert_keeps_nullifiers host true proof s s' x h = ground arith

-- What a call that spends does to the answers of `has_nullifier`.
pub record SpendsOnce (ns : List ℕ) (s s' : Storage) : Type 0 where
  pub distinct : AllDistinct ns
  pub unspent : All (λ n. has_nullifier n s ≡ ok false) ns
  pub spent : All (λ n. has_nullifier n s' ≡ ok true) ns
  pub others : (j : ℕ) → All (λ n. n ≢ j) ns → has_nullifier j s' ≡ has_nullifier j s
  pub kept : (j : ℕ) → has_nullifier j s ≡ ok true → has_nullifier j s' ≡ ok true

Settled-SpendsOnce :
    {host : Host} {proof : Proof} {ext_data : ExtData} {insert : Bool} {w w' : World}
    → Settled host proof ext_data insert w w'
    → SpendsOnce proof.input_nullifiers w.storage w'.storage
Settled-SpendsOnce {host} {proof} {ext_data} {insert} {w} {w'} t = record {
  distinct = marked.distinct;
  unspent = All-map _ _ proof.input_nullifiers (λ n h. before n ∙ ap ok h) marked.fresh;
  spent = All-map _ _ proof.input_nullifiers (λ n h. after n ∙ ap ok h) marked.all;
  others = λ j h. after j ∙ ap ok (marked.others j h) ∙ sym (before j);
  kept = λ j h. after j ∙ ap ok (marked.kept j (ok-injective (sym (before j) ∙ h)));
}
  where
    marked : Marked proof.input_nullifiers w.storage t.spent
    marked = spend-Marked proof.input_nullifiers w.storage t.spent t.marked

    before : (n : ℕ) → has_nullifier n w.storage ≡ ok (has_mark marked.old n)
    before n = spent_iff n w.storage marked.old marked.was

    after : (n : ℕ) → has_nullifier n w'.storage ≡ ok (has_mark marked.new n)
    after n = spent_iff n w'.storage marked.new (
        ap (λ (s : Storage). s.nullifiers) (storage-Settled t)
        ∙ insert_keeps_nullifiers host insert proof t.spent t.final t.inserted t.has_inserted
        ∙ ap (λ (s : Storage). s.nullifiers) marked.now)

-- A call that spends finds its nullifiers unspent and pairwise distinct, and leaves them spent; it
-- spends no other nullifier and returns none.
pub spend_once :
    (host : Host) (proof : Proof) (ext_data : ExtData) (sender : ℕ) (w w' : World)
    → Spends host proof ext_data sender w w'
    → SpendsOnce proof.input_nullifiers w.storage w'.storage
spend_once host proof ext_data sender w w' (inl h) =
    let t = transact-Transacted host proof ext_data sender w w' h in
    subst (λ s. SpendsOnce proof.input_nullifiers s w'.storage)
      (pay_in-keeps host t.token ext_data sender w t.paid_in t.pays_in).0
      (Settled-SpendsOnce t.settled)
spend_once host proof ext_data sender w w' (inr h) =
    Settled-SpendsOnce (exit-Exited host proof ext_data sender w w' h).settled

Step-spent :
    (permutation : ℕ → ℕ → ℕ) (n : ℕ) (w w' : World)
    → Step permutation w w'
    → has_nullifier n w.storage ≡ ok true
    → has_nullifier n w'.storage ≡ ok true
Step-spent p n w w' (registers host account h) e =
    same_answer n w.storage w'.storage ((other_calls_keep host account 0 w w').0 h).1 ∙ e
Step-spent p n w w' (transacts host proof ext_data sender same h) e =
    (spend_once host proof ext_data sender w w' (inl h)).kept n e
Step-spent p n w w' (exits host proof ext_data sender same h) e =
    (spend_once host proof ext_data sender w w' (inr h)).kept n e
Step-spent p n w w' (updates_admin host a h) e =
    same_answer n w.storage w'.storage ((other_calls_keep host nobody a w w').1 h).1 ∙ e
Step-spent p n w w' (updates_verifier host a h) e =
    same_answer n w.storage w'.storage ((other_calls_keep host nobody a w w').2 h).1 ∙ e
Step-spent p n w w' (updates_asp_membership host a h) e =
    same_answer n w.storage w'.storage ((other_calls_keep host nobody a w w').3 h).1 ∙ e

Reach-spent :
    (permutation : ℕ → ℕ → ℕ) (n : ℕ) (w w' : World)
    → Reach permutation w w'
    → has_nullifier n w.storage ≡ ok true
    → has_nullifier n w'.storage ≡ ok true
Reach-spent p n w w' here e = e
Reach-spent p n w w' (next {u} reached step) e =
    Step-spent p n u w' step (Reach-spent p n w u reached e)

-- After a call that spent a nullifier, and any further calls, no call that spends it again succeeds,
-- whoever makes it and whatever the other contracts answer.
pub no_double_spend :
    (permutation : ℕ → ℕ → ℕ) (n : ℕ) (host host' : Host) (proof proof' : Proof)
    (ext_data ext_data' : ExtData) (sender sender' : ℕ) (w w1 w2 w3 : World)
    → Spends host proof ext_data sender w w1
    → Reach permutation w1 w2
    → IsIn n proof.input_nullifiers
    → IsIn n proof'.input_nullifiers
    → ¬ Spends host' proof' ext_data' sender' w2 w3
no_double_spend p n host host' proof proof' ext_data ext_data' sender sender' w w1 w2 w3 first
      reached in_first in_second second =
    let spent =
      All-at _ n proof.input_nullifiers (spend_once host proof ext_data sender w w1 first).spent
        in_first in
    let unspent =
      All-at _ n proof'.input_nullifiers
        (spend_once host' proof' ext_data' sender' w2 w3 second).unspent in_second in
    let clash : ok true ≡ ok false = sym (Reach-spent p n w1 w2 reached spent) ∙ unspent in cc
