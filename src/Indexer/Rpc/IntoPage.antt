-- ===== src/Indexer/Rpc/IntoPage.antt =====
-- What a page holds that was read from an answer of RPC (`into_page` of services/indexer/src/rpc.rs).
use Prim.Native.String.{String}
use text.Mathlib.Text.{◌==◌ as ◌is◌}
use text.Mathlib.TextEquality.{eq_iff}
use veil_contract.Prelude.{
  ◌≡◌, ◌⊎◌, inl, inr, ◌↔◌, ◌>>=◌, ◌>>◌, refuse_if, not, ◌∙◌, sym, ap, ◌==◌, refl, Bool, true, false,
  ◌||◌, ==_iff, List, [], ◌∷◌, Outcome, ok, err, trap, >>=-eq-ok, ok-injective, passed,
  double_negation, Bool-cases, if◌then◌else◌,
}
use mathlib.Core.Path.{subst}
use veil_contract.Indexer.Position.{ledger, from_str}
use veil_contract.Indexer.Event.ScVal.{ScVal}
use veil_contract.Indexer.Store.{ContractEvent, rpc}
use veil_contract.Indexer.Ingest.{EventsPage}
use veil_contract.Indexer.Rpc.{
  RpcError, bad_position, undecoded, RpcEvent, GetEventsResult, map_err, call_failed, contains,
  from_base64, convert, convert_events, into_page,
}

-- The events of calls that did not fail.
abbrev pub effective : List RpcEvent → List RpcEvent
effective [] = []
effective (e ∷ es) =
    if call_failed e.in_successful_contract_call then effective es else e ∷ effective es

abbrev pub Among : String → List String → Type 0
Among contract [] = ⊥
Among contract (c ∷ cs) = (c ≡ contract) ⊎ Among contract cs

map_err-ok :
    {A E : Type 0} (f : E → RpcError) (call : Outcome E A) (a : A)
    → map_err f call ≡ ok a
    → call ≡ ok a
map_err-ok f (ok b) a h = cc
map_err-ok f (err e) a h = absurd cc
map_err-ok f trap a h = absurd cc

neither : (a b : Bool) → (a || b) ≡ false → (a ≡ false) × (b ≡ false)
neither false b h = (refl, h)
neither true b h = absurd cc

or_true : (b : Bool) → (b || true) ≡ true
or_true false = refl
or_true true = refl

-- A chain goes on after a call that ended with a value, and after a check that passes.
and_then :
    {A B : Type 0} (call : Outcome RpcError A) (rest : A → Outcome RpcError B) (a : A)
    → call ≡ ok a
    → (call >>= rest) ≡ rest a
and_then call rest a ended = ap (λ m. m >>= rest) ended

after_check :
    {A : Type 0} (b : Bool) (e : RpcError) (rest : Outcome RpcError A)
    → b ≡ true
    → (refuse_if (not b) e >> rest) ≡ rest
after_check b e rest holds = ap (λ t. refuse_if (not t) e >> rest) holds

contains-Among :
    (contract : String) (contracts : List String)
    → contains contracts contract ≡ true
    → Among contract contracts
unfolding contains
contains-Among contract [] h = absurd cc
contains-Among contract (c ∷ contracts) h = elim (Bool-cases (c is contract)) [
  | inl same ↦ inl ((eq_iff c contract).0 same)
  | inr other ↦ inr (
      contains-Among contract contracts
        (subst (λ b. (b || contains contracts contract) ≡ true) other h))
]

module _ (from_xdr_base64 : String → Outcome String ScVal) (contracts : List String) where
  -- The event of a page that an event of the answer becomes.
  pub record IsReadFrom (e : RpcEvent) (c : ContractEvent) : Type 0 where
    pub at : from_str e.id ≡ ok c.position
    pub agrees : ledger c.position ≡ e.ledger
    pub requested : Among c.contract contracts
    pub same : c.contract ≡ e.contract_id
    pub from_rpc : c.source ≡ rpc
    pub read_raw : from_base64 from_xdr_base64 e.topic e.value ≡ ok c.raw

  abbrev pub AreReadFrom : List RpcEvent → List ContractEvent → Type 0
  AreReadFrom [] [] = Unit
  AreReadFrom (e ∷ es) (c ∷ cs) = IsReadFrom e c × AreReadFrom es cs
  AreReadFrom [] (c ∷ cs) = ⊥
  AreReadFrom (e ∷ es) [] = ⊥

  convert-IsReadFrom :
      (e : RpcEvent) (c : ContractEvent)
      → convert from_xdr_base64 contracts e ≡ ok c
      → IsReadFrom e c
  unfolding convert
  convert-IsReadFrom e c h =
      let (known, h₁) = passed _ _ _ h in
      let (position, parsed, h₂) = >>=-eq-ok (map_err bad_position (from_str e.id)) _ h₁ in
      let (same, h₃) = passed _ _ _ h₂ in
      let (raw, decoded, h₄) =
        >>=-eq-ok (map_err (undecoded e.id) (from_base64 from_xdr_base64 e.topic e.value)) _ h₃ in
      subst (IsReadFrom e) (ok-injective h₄) (record {
        at = map_err-ok _ _ position parsed;
        agrees = (==_iff _ _).0 (double_negation _ same);
        requested = contains-Among _ _ (double_negation _ known);
        same = refl;
        from_rpc = refl;
        read_raw = map_err-ok _ _ raw decoded;
      })

  abbrev read_all : List RpcEvent → Outcome RpcError (List ContractEvent)
  read_all = convert_events from_xdr_base64 contracts

  with_one_more :
      (failed : Bool) (e : RpcEvent) (es : List RpcEvent) (cs : List ContractEvent)
      → ((others : List ContractEvent)
          → read_all es ≡ ok others
          → AreReadFrom (effective es) others)
      → (if failed
          then read_all es
          else (convert from_xdr_base64 contracts e >>= λ c.
              read_all es >>= λ others. ok (c ∷ others)))
        ≡ ok cs
      → AreReadFrom (if failed then effective es else e ∷ effective es) cs
  with_one_more true e es cs so_far h = so_far cs h
  with_one_more false e es cs so_far h =
      let (c, converted, h₁) = >>=-eq-ok (convert from_xdr_base64 contracts e) _ h in
      let (others, read, h₂) = >>=-eq-ok (read_all es) _ h₁ in
      subst (AreReadFrom (e ∷ effective es)) (ok-injective h₂)
        (convert-IsReadFrom e c converted, so_far others read)

  convert_events-AreReadFrom :
      (es : List RpcEvent) (cs : List ContractEvent)
      → read_all es ≡ ok cs
      → AreReadFrom (effective es) cs
  unfolding convert_events
  convert_events-AreReadFrom [] cs h = subst (AreReadFrom []) (ok-injective h) tt
  convert_events-AreReadFrom (e ∷ es) cs h =
      with_one_more (call_failed e.in_successful_contract_call) e es cs
        (convert_events-AreReadFrom es) h

  -- What a page is that was read from an answer.
  pub record IsPageOf (result : GetEventsResult) (page : EventsPage) : Type 0 where
    pub cursor_read : from_str result.cursor ≡ ok page.cursor
    pub events_read : AreReadFrom (effective result.events) page.events
    pub same_latest : page.latest_ledger ≡ result.latest_ledger
    pub same_oldest : page.oldest_ledger ≡ result.oldest_ledger

  into_page-IsPageOf :
      (result : GetEventsResult) (page : EventsPage)
      → into_page from_xdr_base64 contracts result ≡ ok page
      → IsPageOf result page
  unfolding into_page
  into_page-IsPageOf result page h =
      let (cursor, parsed, h₁) = >>=-eq-ok (map_err bad_position (from_str result.cursor)) _ h in
      let (events, read, h₂) = >>=-eq-ok (read_all result.events) _ h₁ in
      subst (IsPageOf result) (ok-injective h₂) (record {
        cursor_read = map_err-ok _ _ cursor parsed;
        events_read = convert_events-AreReadFrom result.events events read;
        same_latest = refl;
        same_oldest = refl;
      })

  Among-contains :
      (contract : String) (known : List String)
      → Among contract known
      → contains known contract ≡ true
  unfolding contains
  Among-contains contract [] h = absurd h
  Among-contains contract (c ∷ known) (inl same) = rw ((eq_iff c contract).1 same) refl
  Among-contains contract (c ∷ known) (inr later) =
      rw (Among-contains contract known later) (or_true (c is contract))

  IsReadFrom-convert :
      (e : RpcEvent) (c : ContractEvent)
      → IsReadFrom e c
      → convert from_xdr_base64 contracts e ≡ ok c
  unfolding convert
  IsReadFrom-convert e c r =
      after_check (contains contracts e.contract_id) _ _
        (Among-contains e.contract_id contracts (subst (λ k. Among k contracts) r.same r.requested))
      ∙ and_then (map_err bad_position (from_str e.id)) _ c.position
          (ap (map_err bad_position) r.at)
      ∙ after_check (ledger c.position == e.ledger) _ _ ((==_iff _ _).1 r.agrees)
      ∙ and_then (map_err (undecoded e.id) (from_base64 from_xdr_base64 e.topic e.value)) _ c.raw
          (ap (map_err (undecoded e.id)) r.read_raw)
      ∙ ap (λ k. ok (record c { contract = k; source = rpc })) (sym r.same)
      ∙ ap (λ k. ok (record c { source = k })) (sym r.from_rpc)

  one_more_read :
      (failed : Bool) (e : RpcEvent) (es : List RpcEvent) (cs : List ContractEvent)
      → ((others : List ContractEvent)
          → AreReadFrom (effective es) others
          → read_all es ≡ ok others)
      → AreReadFrom (if failed then effective es else e ∷ effective es) cs
      → (if failed
          then read_all es
          else (convert from_xdr_base64 contracts e >>= λ c.
              read_all es >>= λ others. ok (c ∷ others)))
        ≡ ok cs
  one_more_read true e es cs so_far h = so_far cs h
  one_more_read false e es [] so_far h = absurd h
  one_more_read false e es (c ∷ cs) so_far (first, later) =
      and_then (convert from_xdr_base64 contracts e) _ c (IsReadFrom-convert e c first)
      ∙ and_then (read_all es) _ cs (so_far cs later)

  AreReadFrom-convert_events :
      (es : List RpcEvent) (cs : List ContractEvent)
      → AreReadFrom (effective es) cs
      → read_all es ≡ ok cs
  unfolding convert_events
  AreReadFrom-convert_events [] [] h = refl
  AreReadFrom-convert_events [] (c ∷ cs) h = absurd h
  AreReadFrom-convert_events (e ∷ es) cs h =
      one_more_read (call_failed e.in_successful_contract_call) e es cs
        (AreReadFrom-convert_events es) h

  IsPageOf-into_page :
      (result : GetEventsResult) (page : EventsPage)
      → IsPageOf result page
      → into_page from_xdr_base64 contracts result ≡ ok page
  unfolding into_page
  IsPageOf-into_page result page r =
      and_then (map_err bad_position (from_str result.cursor)) _ page.cursor
        (ap (map_err bad_position) r.cursor_read)
      ∙ and_then (read_all result.events) _ page.events
          (AreReadFrom-convert_events result.events page.events r.events_read)
      ∙ ap (λ n. ok (record page { latest_ledger = n; oldest_ledger = result.oldest_ledger }))
          (sym r.same_latest)
      ∙ ap (λ n. ok (record page { oldest_ledger = n })) (sym r.same_oldest)

  -- RPC's answer is read to a page exactly if the cursor of the answer parses to the page's, the
  -- ledgers are the same, and the events of calls that did not fail are, in their order, those of
  -- the page: each from a contract that was asked for, at the position that its id parses to, in the
  -- ledger that it says, with its topics and body read from base64.
  pub into_page_lem :
      (result : GetEventsResult) (page : EventsPage)
      → (into_page from_xdr_base64 contracts result ≡ ok page) ↔ IsPageOf result page
  into_page_lem result page = (into_page-IsPageOf result page, IsPageOf-into_page result page)
