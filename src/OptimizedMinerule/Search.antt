-- ===== src/OptimizedMinerule/Search.antt =====
-- The past minerule that the loop of `optimize` settles on.
use minerule.Prelude.{
  ℕ, ◌≡◌, refl, Bool, true, false, ltb, if◌then◌else◌, Option, none, some, ◌>>=◌, List, [], ◌∷◌,
  ◌∙◌, ap, ap₂, sym, arith, Bool-cases, ◌++◌, inl, inr,
}
use minerule.Predicate.{Text}
use minerule.OptimizedMinerule.{
  ParsedMinerule, MineruleRelationship, no_relationship, dominance, inclusion, equivalence,
  combination, CatalogueInfo, OptimizationInfo, current_rel, dominated, optimize_loop,
}

-- The smaller result, the first of two of one size.
abbrev pub smaller : CatalogueInfo → Option CatalogueInfo → CatalogueInfo
smaller it none = it
smaller it (some o) = if ltb o.res_size it.res_size then o else it

smaller_assoc :
    (a b : CatalogueInfo) (o : Option CatalogueInfo)
    → smaller (smaller a (some b)) o ≡ smaller a (some (smaller b o))
smaller_assoc a b none = refl
smaller_assoc a b (some o) = ground arith

-- The relationships that the loop passes over.
abbrev passed : MineruleRelationship → Bool
passed no_relationship = true
passed dominance = false
passed inclusion = true
passed equivalence = false
passed combination = true

module _ (relation : ParsedMinerule → MineruleRelationship) (candidate : ParsedMinerule → Bool)
    (avoid : Bool) (query_size : Text → Option ℕ) where
  abbrev pub first_equivalent : List CatalogueInfo → Option ParsedMinerule
  first_equivalent [] = none
  first_equivalent (it ∷ rest) = elim (current_rel relation candidate avoid query_size it.mr) [
    | equivalence ↦ some it.mr
    | _ ↦ first_equivalent rest
  ]

  abbrev pub least_dominant : List CatalogueInfo → Option CatalogueInfo
  least_dominant [] = none
  least_dominant (it ∷ rest) = elim (current_rel relation candidate avoid query_size it.mr) [
    | dominance ↦ some (smaller it (least_dominant rest))
    | _ ↦ least_dominant rest
  ]

  -- The first equivalent minerule, or else the dominant one with the smallest result.
  abbrev pub judged :
      Option ParsedMinerule
      → Option CatalogueInfo
      → ParsedMinerule
      → MineruleRelationship × ParsedMinerule
  judged (some mr) least old = (equivalence, mr)
  judged none (some it) old = (dominance, it.mr)
  judged none none old = (no_relationship, old)

  abbrev pub verdict : ParsedMinerule → List CatalogueInfo → MineruleRelationship × ParsedMinerule
  verdict old infos = judged (first_equivalent infos) (least_dominant infos) old

  abbrev decided : Option ParsedMinerule → CatalogueInfo → MineruleRelationship × ParsedMinerule
  decided (some mr) best = (equivalence, mr)
  decided none best = (dominance, best.mr)

  -- The same, where `best` has been found before.
  abbrev verdict_from : CatalogueInfo → List CatalogueInfo → MineruleRelationship × ParsedMinerule
  verdict_from best infos = decided (first_equivalent infos) (smaller best (least_dominant infos))

  -- The catalogue knows the size of each.
  abbrev pub Sized : List CatalogueInfo → Type 0
  Sized [] = Unit {0}
  Sized (it ∷ rest) = (query_size it.mr.tab_result ≡ some it.res_size) × Sized rest

  with_candidate : CatalogueInfo → OptimizationInfo → OptimizationInfo
  with_candidate it opt =
      if candidate it.mr
      then record opt { minerules_to_combine = opt.minerules_to_combine ++ it.mr ∷ [] }
      else opt

  module _ (it : CatalogueInfo) (opt : OptimizationInfo) where
    with_candidate-relationship : (with_candidate it opt).relationship ≡ opt.relationship
    unfolding with_candidate
    with_candidate-relationship = ground arith

    with_candidate-minerule : (with_candidate it opt).minerule ≡ opt.minerule
    unfolding with_candidate
    with_candidate-minerule = ground arith

    loop-equivalence :
        (rest : List CatalogueInfo)
        → current_rel relation candidate avoid query_size it.mr ≡ equivalence
        → optimize_loop relation candidate avoid query_size (it ∷ rest) opt
          ≡ some (record (with_candidate it opt) { relationship = equivalence; minerule = it.mr })
    unfolding optimize_loop with_candidate
    loop-equivalence rest e = rw (e, optimize_loop) refl

    loop-dominance :
        (rest : List CatalogueInfo)
        → current_rel relation candidate avoid query_size it.mr ≡ dominance
        → optimize_loop relation candidate avoid query_size (it ∷ rest) opt ≡ (
            dominated relation candidate avoid query_size it (with_candidate it opt)
            >>= optimize_loop relation candidate avoid query_size rest)
    unfolding optimize_loop with_candidate
    loop-dominance rest e = rw (e, optimize_loop) refl

    loop-passed :
        (k : MineruleRelationship) (rest : List CatalogueInfo)
        → passed k ≡ true
        → current_rel relation candidate avoid query_size it.mr ≡ k
        → optimize_loop relation candidate avoid query_size (it ∷ rest) opt
          ≡ optimize_loop relation candidate avoid query_size rest (with_candidate it opt)
    unfolding optimize_loop with_candidate
    loop-passed no_relationship rest h e = rw (e, optimize_loop) refl
    loop-passed dominance rest h e = absurd (ground arith)
    loop-passed inclusion rest h e = rw (e, optimize_loop) refl
    loop-passed equivalence rest h e = absurd (ground arith)
    loop-passed combination rest h e = rw (e, optimize_loop) refl

    dominated-first :
        opt.relationship ≡ no_relationship
        → dominated relation candidate avoid query_size it opt
          ≡ some (record opt { minerule = it.mr; relationship = dominance })
    unfolding dominated
    dominated-first h = rw (h, dominated) refl

    dominated-next :
        (n : ℕ)
        → opt.relationship ≡ dominance
        → query_size opt.minerule.tab_result ≡ some n
        → dominated relation candidate avoid query_size it opt
          ≡ some (
              if ltb it.res_size n
              then record opt { minerule = it.mr; relationship = dominance }
              else record opt { relationship = dominance })
    unfolding dominated
    dominated-next n h e = rw (h, dominated) (rw e refl)

  abbrev Settles :
      List CatalogueInfo → OptimizationInfo → MineruleRelationship × ParsedMinerule → Type 0
  Settles infos opt v =
      (r : OptimizationInfo) × (optimize_loop relation candidate avoid query_size infos opt
        ≡ some r)
      × (◌≡◌ {A = MineruleRelationship × ParsedMinerule} (r.relationship, r.minerule) v)

  Settles-after :
      (infos infos' : List CatalogueInfo) (opt opt' : OptimizationInfo)
      (v : MineruleRelationship × ParsedMinerule)
      → optimize_loop relation candidate avoid query_size infos opt
        ≡ optimize_loop relation candidate avoid query_size infos' opt'
      → Settles infos' opt' v
      → Settles infos opt v
  Settles-after infos infos' opt opt' v e (r, f, g) = (r, e ∙ f, g)

  module _ (it : CatalogueInfo) (rest : List CatalogueInfo) where
    first_equivalent-passed :
        (k : MineruleRelationship)
        → passed k ≡ true
        → current_rel relation candidate avoid query_size it.mr ≡ k
        → (first_equivalent (it ∷ rest) ≡ first_equivalent rest)
          × (least_dominant (it ∷ rest) ≡ least_dominant rest)
    first_equivalent-passed no_relationship h e =
        (rw (e, first_equivalent) refl, rw (e, least_dominant) refl)
    first_equivalent-passed dominance h e = absurd (ground arith)
    first_equivalent-passed inclusion h e =
        (rw (e, first_equivalent) refl, rw (e, least_dominant) refl)
    first_equivalent-passed equivalence h e = absurd (ground arith)
    first_equivalent-passed combination h e =
        (rw (e, first_equivalent) refl, rw (e, least_dominant) refl)

    verdict_from-dominance :
        (best : CatalogueInfo)
        → current_rel relation candidate avoid query_size it.mr ≡ dominance
        → verdict_from (smaller best (some it)) rest ≡ verdict_from best (it ∷ rest)
    verdict_from-dominance best e =
        let same_equivalent : first_equivalent (it ∷ rest) ≡ first_equivalent rest =
          rw (e, first_equivalent) refl in
        let least : least_dominant (it ∷ rest) ≡ some (smaller it (least_dominant rest)) =
          rw (e, least_dominant) refl in
        ap₂ decided (sym same_equivalent)
          (smaller_assoc best it (least_dominant rest) ∙ ap (smaller best) (sym least))

    Settles-passed :
        (best : CatalogueInfo) (opt : OptimizationInfo)
        → opt.relationship ≡ dominance
        → opt.minerule ≡ best.mr
        → query_size best.mr.tab_result ≡ some best.res_size
        → ((b : CatalogueInfo) (o : OptimizationInfo)
            → o.relationship ≡ dominance
            → o.minerule ≡ b.mr
            → query_size b.mr.tab_result ≡ some b.res_size
            → Settles rest o (verdict_from b rest))
        → (k : MineruleRelationship) → passed k ≡ true
        → current_rel relation candidate avoid query_size it.mr ≡ k
        → Settles (it ∷ rest) opt (verdict_from best (it ∷ rest))
    Settles-passed best opt h m q later k p e =
        let (same_e, same_l) = first_equivalent-passed k p e in
        let (r, f, g) =
          later best (with_candidate it opt) (with_candidate-relationship it opt ∙ h)
            (with_candidate-minerule it opt ∙ m) q in
        (
          r,
          loop-passed it opt k rest p e ∙ f,
          g ∙ ap₂ decided (sym same_e) (ap (smaller best) (sym same_l)),
        )

    Settles-step :
        (best : CatalogueInfo) (opt : OptimizationInfo)
        → opt.relationship ≡ dominance
        → opt.minerule ≡ best.mr
        → query_size best.mr.tab_result ≡ some best.res_size
        → query_size it.mr.tab_result ≡ some it.res_size
        → ((b : CatalogueInfo) (o : OptimizationInfo)
            → o.relationship ≡ dominance
            → o.minerule ≡ b.mr
            → query_size b.mr.tab_result ≡ some b.res_size
            → Settles rest o (verdict_from b rest))
        → (k : MineruleRelationship) → current_rel relation candidate avoid query_size it.mr ≡ k
        → Settles (it ∷ rest) opt (verdict_from best (it ∷ rest))
    Settles-step best opt h m q here later equivalence e =
        let same : first_equivalent (it ∷ rest) ≡ some it.mr = rw (e, first_equivalent) refl in
        (
          record (with_candidate it opt) { relationship = equivalence; minerule = it.mr },
          loop-equivalence it opt rest e,
          ap (λ f. decided f (smaller best (least_dominant (it ∷ rest)))) (sym same),
        )
    Settles-step best opt h m q here later dominance e =
        let o1 = with_candidate it opt in
        let known : query_size o1.minerule.tab_result ≡ some best.res_size =
          ap (λ mr. query_size mr.tab_result) (with_candidate-minerule it opt ∙ m) ∙ q in
        let next =
          dominated-next it o1 best.res_size (with_candidate-relationship it opt ∙ h) known in
        elim (Bool-cases (ltb it.res_size best.res_size)) [
          | inl less ↦
              let (r, f, g) =
                later it (record o1 { minerule = it.mr; relationship = dominance }) refl refl
                  here in
              let chosen : smaller best (some it) ≡ it = rw less refl in
              (
                r,
                loop-dominance it opt rest e ∙ carry (next ∙ ap some (rw less refl)) ∙ f,
                g ∙ ap (λ b. verdict_from b rest) (sym chosen) ∙ verdict_from-dominance best e,
              )
          | inr more ↦
              let (r, f, g) =
                later best (record o1 { relationship = dominance }) refl
                  (with_candidate-minerule it opt ∙ m) q in
              let chosen : smaller best (some it) ≡ best = rw more refl in
              (
                r,
                loop-dominance it opt rest e ∙ carry (next ∙ ap some (rw more refl)) ∙ f,
                g ∙ ap (λ b. verdict_from b rest) (sym chosen) ∙ verdict_from-dominance best e,
              )
        ]
      where
        carry :
            {d : Option OptimizationInfo} {o : OptimizationInfo}
            → d ≡ some o
            → (d >>= optimize_loop relation candidate avoid query_size rest)
              ≡ optimize_loop relation candidate avoid query_size rest o
        carry e = ap (λ d. d >>= optimize_loop relation candidate avoid query_size rest) e
    Settles-step best opt h m q here later no_relationship e =
        Settles-passed best opt h m q later no_relationship refl e
    Settles-step best opt h m q here later inclusion e =
        Settles-passed best opt h m q later inclusion refl e
    Settles-step best opt h m q here later combination e =
        Settles-passed best opt h m q later combination refl e

  Settles-best :
      (infos : List CatalogueInfo) (best : CatalogueInfo) (opt : OptimizationInfo)
      → opt.relationship ≡ dominance
      → opt.minerule ≡ best.mr
      → query_size best.mr.tab_result ≡ some best.res_size
      → Sized infos
      → Settles infos opt (verdict_from best infos)
  unfolding optimize_loop
  Settles-best [] best opt h m q s = (opt, refl, ap₂ (λ a b. (a, b)) h m)
  Settles-best (it ∷ rest) best opt h m q (here, s) =
      Settles-step it rest best opt h m q here (λ b o h1 m1 q1. Settles-best rest b o h1 m1 q1 s)
        (current_rel relation candidate avoid query_size it.mr) refl

  decided-judged :
      (f : Option ParsedMinerule) (it : CatalogueInfo) (old : ParsedMinerule)
      → decided f it ≡ judged f (some it) old
  decided-judged none it old = refl
  decided-judged (some mr) it old = refl

  open_passed :
      (it : CatalogueInfo) (rest : List CatalogueInfo) (opt : OptimizationInfo)
      → opt.relationship ≡ no_relationship
      → ((o : OptimizationInfo)
          → o.relationship ≡ no_relationship
          → Settles rest o (verdict o.minerule rest))
      → (k : MineruleRelationship) → passed k ≡ true
      → current_rel relation candidate avoid query_size it.mr ≡ k
      → Settles (it ∷ rest) opt (verdict opt.minerule (it ∷ rest))
  open_passed it rest opt h later k p e =
      let (same_e, same_l) = first_equivalent-passed it rest k p e in
      let (r, f, g) = later (with_candidate it opt) (with_candidate-relationship it opt ∙ h) in
      (
        r,
        loop-passed it opt k rest p e ∙ f,
        g
            ∙ ap (λ old. verdict old rest) (with_candidate-minerule it opt)
            ∙ ap₂ (λ x y. judged x y opt.minerule) (sym same_e) (sym same_l),
      )

  open_step :
      (it : CatalogueInfo) (rest : List CatalogueInfo) (opt : OptimizationInfo)
      → opt.relationship ≡ no_relationship
      → query_size it.mr.tab_result ≡ some it.res_size
      → Sized rest
      → ((o : OptimizationInfo)
          → o.relationship ≡ no_relationship
          → Settles rest o (verdict o.minerule rest))
      → (k : MineruleRelationship) → current_rel relation candidate avoid query_size it.mr ≡ k
      → Settles (it ∷ rest) opt (verdict opt.minerule (it ∷ rest))
  open_step it rest opt h here s later equivalence e =
      let same : first_equivalent (it ∷ rest) ≡ some it.mr = rw (e, first_equivalent) refl in
      (
        record (with_candidate it opt) { relationship = equivalence; minerule = it.mr },
        loop-equivalence it opt rest e,
        ap (λ f. judged f (least_dominant (it ∷ rest)) opt.minerule) (sym same),
      )
  open_step it rest opt h here s later dominance e =
      let o1 = with_candidate it opt in
      let same_e : first_equivalent (it ∷ rest) ≡ first_equivalent rest =
        rw (e, first_equivalent) refl in
      let same_l : least_dominant (it ∷ rest) ≡ some (smaller it (least_dominant rest)) =
        rw (e, least_dominant) refl in
      let first = dominated-first it o1 (with_candidate-relationship it opt ∙ h) in
      let (r, f, g) =
        Settles-best rest it (record o1 { minerule = it.mr; relationship = dominance }) refl refl
          here s in
      (
        r,
        loop-dominance it opt rest e
            ∙ ap (λ d. d >>= optimize_loop relation candidate avoid query_size rest) first
            ∙ f,
        g
            ∙ decided-judged (first_equivalent rest) (smaller it (least_dominant rest)) opt.minerule
            ∙ ap₂ (λ x y. judged x y opt.minerule) (sym same_e) (sym same_l),
      )
  open_step it rest opt h here s later no_relationship e =
      open_passed it rest opt h later no_relationship refl e
  open_step it rest opt h here s later inclusion e =
      open_passed it rest opt h later inclusion refl e
  open_step it rest opt h here s later combination e =
      open_passed it rest opt h later combination refl e

  -- From a state without a relationship, and where the catalogue knows the size of every past
  -- result, the loop of optimize ends with the first equivalent past minerule, or if there is none
  -- with the dominant one whose result is smallest (the first of those of one size), or if there is
  -- none of those either with no relationship and the minerule it began with.
  pub optimize_loop-verdict :
      (infos : List CatalogueInfo) (opt : OptimizationInfo)
      → opt.relationship ≡ no_relationship
      → Sized infos
      → (r : OptimizationInfo) × (optimize_loop relation candidate avoid query_size infos opt
          ≡ some r)
        × (◌≡◌ {A = MineruleRelationship × ParsedMinerule}
            (r.relationship, r.minerule)
            (verdict opt.minerule infos))
  unfolding optimize_loop
  optimize_loop-verdict [] opt h s = (opt, refl, ap (λ k. (k, opt.minerule)) h)
  optimize_loop-verdict (it ∷ rest) opt h (here, s) =
      open_step it rest opt h here s (λ o h1. optimize_loop-verdict rest o h1 s)
        (current_rel relation candidate avoid query_size it.mr) refl
