-- ===== src/Rebuild/Numbering.antt =====
-- crates/router/src/rebuild.rs: the sequences at which `Rebuilder::apply_emitted` folds a decision's
-- events.
use angzarr_router.Prelude.{
  ℕ, ◌+◌, ◌%◌, ◌^◌, ◌≡◌, ap, List, [], ◌∷◌, ◌++◌, length, arith, get_elem?, map_option, some, zero,
  suc, refl,
}
use angzarr_router.Wire.Payload.{Any}
use angzarr_router.Wire.Messages.{Wire, EventMeta, PageBody}
use angzarr_router.Rebuild.Folding.{number_pages}

module _ ⦃w : Wire⦄ (meta : EventMeta) where
  -- The pages of two runs of events are those of the one, then those of the other from where the
  -- first ends.
  pub number_pages-append :
      (xs ys : List Any) (n : ℕ)
      → number_pages (xs ++ ys) (n % 2 ^ 64) meta
        ≡ number_pages xs (n % 2 ^ 64) meta ++ number_pages ys ((n + length xs) % 2 ^ 64) meta
  unfolding number_pages
  number_pages-append [] ys n = ap (λ k. number_pages ys k meta) (omega arith)
  number_pages-append (x ∷ xs) ys n =
      let step : ((n % 2 ^ 64) + 1) % 2 ^ 64 ≡ (n + 1) % 2 ^ 64 = omega arith in
      let reach : (n + 1 + length xs) % 2 ^ 64 ≡ (n + length (x ∷ xs)) % 2 ^ 64 = omega arith in
      rw (step, ← reach, number_pages-append xs ys (n + 1))

  -- The page at each place holds the event of that place, with the decision's metadata, at the first
  -- sequence and the place together, in a u64; behind the events there is no page.
  pub get_elem?-number_pages :
      (events : List Any) (n i : ℕ)
      → get_elem? (number_pages events (n % 2 ^ 64) meta) i
        ≡ map_option
            (λ event. record {
              body = some (PageBody.event event);
              meta = some meta;
              sequence = (n + i) % 2 ^ 64;
            })
            (get_elem? events i)
  unfolding number_pages
  get_elem?-number_pages [] n i = refl
  get_elem?-number_pages (event ∷ events) n zero =
      let start : n % 2 ^ 64 ≡ (n + zero) % 2 ^ 64 = omega arith in rw start refl
  get_elem?-number_pages (event ∷ events) n (suc i) =
      let step : ((n % 2 ^ 64) + 1) % 2 ^ 64 ≡ (n + 1) % 2 ^ 64 = omega arith in
      let reach : (n + 1 + i) % 2 ^ 64 ≡ (n + suc i) % 2 ^ 64 = omega arith in
      rw (step, ← reach) (get_elem?-number_pages events (n + 1) i)
