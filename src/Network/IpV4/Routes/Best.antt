-- ===== src/Network/IpV4/Routes/Best.antt =====
-- Kernel/Source/Network/IpV4.c: which route IpV4RouteLookup answers.
use k_os.Prelude.{
  ℕ, ◌≡◌, refl, sym, ap, subst, ◌∙◌, inl, inr, Bool, true, false, not, ◌&&◌, ◌||◌, Option, none,
  some, List, [], ◌∷◌, ◌++◌, arith, ltb, ◌==◌, if◌then◌else◌, Bool-cases, All,
}
use k_os.Network.IpV4.Routes.{IpV4Route, is_match, is_better, prefer, lookup_loop, route_lookup}

-- The order among routes: by the metric, the lower first, then by the netmask, the greater first.
abbrev pub ranks_before : IpV4Route → IpV4Route → Bool
ranks_before r q = ltb r.metric q.metric || ((r.metric == q.metric) && ltb q.netmask r.netmask)

module _ (dest : ℕ) where
  abbrev NoMatch : IpV4Route → Type 0
  NoMatch q = is_match dest q ≡ false

  -- A route that matches is worse than `r`, or one that matches is not better.
  abbrev Worse : IpV4Route → IpV4Route → Type 0
  Worse r q = (is_match dest q && not (ranks_before r q)) ≡ false

  abbrev NotBetter : IpV4Route → IpV4Route → Type 0
  NotBetter r q = (is_match dest q && ranks_before q r) ≡ false

  -- The first of the best routes that match, or none matches.
  pub data Chosen (routes : List IpV4Route) (found : Option IpV4Route) : Type 0 where
    unrouted : All NoMatch routes → found ≡ none → Chosen routes found
    routed :
        (before : List IpV4Route) (r : IpV4Route) (after : List IpV4Route)
        → routes ≡ before ++ (r ∷ after)
        → is_match dest r ≡ true
        → All (Worse r) before
        → All (NotBetter r) after
        → found ≡ some r
        → Chosen routes found

  append_assoc : (xs ys zs : List IpV4Route) → (xs ++ ys) ++ zs ≡ xs ++ (ys ++ zs)
  append_assoc [] ys zs = refl
  append_assoc (x ∷ xs) ys zs = ap (◌∷◌ x) (append_assoc xs ys zs)

  append_nil : (xs : List IpV4Route) → xs ++ [] ≡ xs
  append_nil [] = refl
  append_nil (x ∷ xs) = ap (◌∷◌ x) (append_nil xs)

  module _ {κ} (P : IpV4Route → Type κ) where
    All-append : (xs ys : List IpV4Route) → All P xs → All P ys → All P (xs ++ ys)
    All-append [] ys h g = g
    All-append (x ∷ xs) ys h g = (h.0, All-append xs ys h.1 g)

    All-mono :
        (Q : IpV4Route → Type κ)
        → ((x : IpV4Route) → P x → Q x)
        → (xs : List IpV4Route) → All P xs
        → All Q xs
    All-mono Q f [] h = tt
    All-mono Q f (x ∷ xs) h = (f x h.0, All-mono Q f xs h.1)

  Worse-trans : (r b q : IpV4Route) → is_better r b ≡ true → Worse b q → Worse r q
  Worse-trans r b q h k = ground arith

  NotBetter-trans : (r b q : IpV4Route) → is_better r b ≡ true → NotBetter b q → Worse r q
  NotBetter-trans r b q h k = ground arith

  Worse-self : (r b : IpV4Route) → is_better r b ≡ true → Worse r b
  Worse-self r b h = ground arith

  Worse-none : (r q : IpV4Route) → NoMatch q → Worse r q
  Worse-none r q h = ground arith

  step_lem :
      (routes : List IpV4Route) (best : Option IpV4Route) (r : IpV4Route)
      → Chosen routes best
      → Chosen (routes ++ (r ∷ [])) (if is_match dest r then prefer r best else best)
  step_lem routes best r (unrouted none_match e) = elim (Bool-cases (is_match dest r)) [
    | inl y ↦
        routed routes r [] refl y (All-mono NoMatch (Worse r) (Worse-none r) routes none_match) tt
          (rw (y, e) refl)
    | inr n ↦ unrouted (All-append NoMatch routes (r ∷ []) none_match (n, tt)) (rw n e)
  ]
  step_lem routes best r (routed before b after split matched worse rest e) =
      let more : routes ++ (r ∷ []) ≡ before ++ (b ∷ (after ++ (r ∷ []))) =
        ap (λ x. x ++ (r ∷ [])) split ∙ append_assoc before (b ∷ after) (r ∷ []) in
      elim (Bool-cases (is_match dest r)) [
        | inl y ↦ elim (Bool-cases (is_better r b)) [
          | inl better ↦
              let all : All (Worse r) routes = subst (All (Worse r)) (sym split) (
                All-append (Worse r) before (b ∷ after)
                  (All-mono (Worse b) (Worse r) (λ q. Worse-trans r b q better) before worse)
                  (
                    Worse-self r b better,
                    All-mono (NotBetter b) (Worse r) (λ q. NotBetter-trans r b q better) after rest,
                  )) in
              routed routes r [] refl y all tt (rw (y, e, better) refl)
          | inr no_better ↦
              routed before b (after ++ (r ∷ [])) more matched worse
                (All-append (NotBetter b) after (r ∷ []) rest (rw (y, no_better) refl, tt))
                (rw (y, e, no_better) refl)
        ]
        | inr n ↦
            routed before b (after ++ (r ∷ [])) more matched worse
              (All-append (NotBetter b) after (r ∷ []) rest (rw n refl, tt)) (rw n e)
      ]

  loop_lem :
      (seen : List IpV4Route) (best : Option IpV4Route) (routes : List IpV4Route)
      → Chosen seen best
      → Chosen (seen ++ routes) (lookup_loop dest best routes)
  unfolding lookup_loop
  loop_lem seen best [] h = subst (λ x. Chosen x best) (sym (append_nil seen)) h
  loop_lem seen best (r ∷ routes) h =
      subst
        (λ x. Chosen x (lookup_loop dest (if is_match dest r then prefer r best else best) routes))
        (append_assoc seen (r ∷ []) routes)
        (loop_lem (seen ++ (r ∷ [])) (if is_match dest r then prefer r best else best) routes
          (step_lem seen best r h))

  -- IpV4RouteLookup answers the first of the best routes among those that match the address,
  -- where a lower metric is better and then a greater netmask; or no route matches and it answers
  -- NULLPTR.
  pub route_lookup_lem : (routes : List IpV4Route) → Chosen routes (route_lookup routes dest)
  unfolding route_lookup
  route_lookup_lem routes = loop_lem [] none routes (unrouted tt refl)
