-- ===== src/Prerender/Wanted.antt =====
-- Which requests are prerendered, in terms of what stands in a text and not of a search.
use swim.Prelude.{
  ◌≡◌, refl, sym, subst, arith, ◌↔◌, ◌≢◌, ◌⊎◌, inl, inr, Bool, true, false, not, ◌&&◌, ◌||◌, Option,
  none, some, List, [], ◌∷◌, Text, text, text_eq, nat_eq, ◌==◌, to_lower, has_suffix, contains,
  is_empty, if◌then◌else◌, Bool-cases, Ends, Infix, has_suffix-Ends, contains-Infix, or_true,
  or_right,
}
use swim.Prelude.Dict.{lookup}
use swim.Http
use swim.Prerender.{
  Web, Prerender, Request, or_default, any_agent, any_type, is_crawler, is_skipped, is_some,
  asks_for_page, should_prerender,
}
use swim.Prerender.Tables.{default_crawler_user_agents, default_skipped_types}

-- One of the texts satisfies `P`.
abbrev pub OneOf : (Text → Type 0) → List Text → Type 0
OneOf P [] = ⊥
OneOf P (x ∷ xs) = P x ⊎ OneOf P xs

any_agent→ :
    (agents : List Text) (x : Text)
    → any_agent agents x ≡ true
    → OneOf (λ a. Infix (to_lower x) (to_lower a)) agents
unfolding any_agent
any_agent→ [] x h = absurd (cc)
any_agent→ (a ∷ agents) x h =
    elim (or_true (contains (to_lower x) (to_lower a)) (any_agent agents x) h) [
      | inl first ↦ inl ((contains-Infix (to_lower x) (to_lower a)).0 first)
      | inr later ↦ inr (any_agent→ agents x later)
    ]

→any_agent :
    (agents : List Text) (x : Text)
    → OneOf (λ a. Infix (to_lower x) (to_lower a)) agents
    → any_agent agents x ≡ true
unfolding any_agent
→any_agent [] x h = elim h [ ]
→any_agent (a ∷ agents) x (inl first) = rw ((contains-Infix (to_lower x) (to_lower a)).1 first) refl
→any_agent (a ∷ agents) x (inr later) = or_right _ _ (→any_agent agents x later)

any_type→ :
    (types : List Text) (x : Text)
    → any_type types x ≡ true
    → OneOf (λ v. Ends x (to_lower v)) types
unfolding any_type
any_type→ [] x h = absurd (cc)
any_type→ (v ∷ vs) x h = elim (or_true (has_suffix x (to_lower v)) (any_type vs x) h) [
  | inl first ↦ inl ((has_suffix-Ends x (to_lower v)).0 first)
  | inr later ↦ inr (any_type→ vs x later)
]

→any_type :
    (types : List Text) (x : Text)
    → OneOf (λ v. Ends x (to_lower v)) types
    → any_type types x ≡ true
unfolding any_type
→any_type [] x h = elim h [ ]
→any_type (v ∷ vs) x (inl first) = rw ((has_suffix-Ends x (to_lower v)).1 first) refl
→any_type (v ∷ vs) x (inr later) = or_right _ _ (→any_type vs x later)

gates :
    (e m s a c : Bool)
    → (if e then false else if m then false else if s then false else if a then true else c) ≡ true
      ↔ ((e ≡ false) × (m ≡ false) × (s ≡ false) × ((a ≡ true) ⊎ (c ≡ true)))
gates true m s a c = (λ h. absurd (cc), λ (e, _, _, _). absurd (cc))
gates false true s a c = (λ h. absurd (cc), λ (_, m, _, _). absurd (cc))
gates false false true a c = (λ h. absurd (cc), λ (_, _, skipped, _). absurd (cc))
gates false false false true c = (λ h. (refl, refl, refl, inl refl), λ h. refl)
gates false false false false c =
    (λ h. (refl, refl, refl, inr h), λ (_, _, _, o). elim o [ inl h ↦ absurd (cc) | inr h ↦ h ])

filled : (s : Text) → is_empty s ≡ false ↔ (s ≢ [])
filled [] = (λ h. absurd (cc), λ n. absurd (n refl))
filled (c ∷ s) = (λ h e. ground arith, λ n. refl)

nonempty : (s : Text) → not (is_empty s) ≡ true ↔ (s ≢ [])
nonempty [] = (λ h. absurd (cc), λ n. absurd (n refl))
nonempty (c ∷ s) = (λ h e. ground arith, λ n. refl)

either_lem : {A B C D : Type 0} → (A → C) → (B → D) → A ⊎ B → C ⊎ D
either_lem f g (inl a) = inl (f a)
either_lem f g (inr b) = inr (g b)

or_left : (a b : Bool) → a ≡ true → a || b ≡ true
or_left true b h = refl
or_left false b h = absurd (cc)

some_lem : {A : Type 0} (o : Option A) → is_some o ≡ true ↔ ((a : A) × (o ≡ some a))
some_lem none = (λ h. absurd (cc), λ (a, e). absurd (cc))
some_lem (some a) = (λ h. (a, refl), λ h. refl)

differ_lem : (s t u : Text) → (not (s == t) && not (s == u)) ≡ false ↔ ((s ≡ t) ⊎ (s ≡ u))
differ_lem s t u = ground arith

lower_idem : (s : Text) → to_lower (to_lower s) ≡ to_lower s
unfolding to_lower
lower_idem [] = refl
lower_idem (c ∷ s) = ground (arith, lower_idem s)

-- How the request names its agent, and the path, in lower case.
abbrev pub agent_of : Request → Text
agent_of r = to_lower (Http.get r.header (text "User-Agent"))

abbrev pub path_of : Request → Text
path_of r = to_lower r.url.path

module _ {S U : Type 0} (web : Web S U) (p : Prerender U) where
  abbrev pub IsCrawler : Request → Type 0
  IsCrawler r =
      OneOf (λ a. Infix (agent_of r) (to_lower a))
        (or_default p.crawler_user_agents default_crawler_user_agents)

  abbrev pub IsAsset : Request → Type 0
  IsAsset r =
      OneOf (λ v. Ends (path_of r) (to_lower v))
        (or_default p.skipped_file_types default_skipped_types)

  abbrev pub AsksForPage : Request → Type 0
  AsksForPage r =
      (Http.get r.header (text "X-Bufferbot") ≢ [])
      ⊎ ((vs : List Text) × (lookup (text "_escaped_fragment_") (web.query r.url.raw_query)
            ≡ some vs))

  crawler_lem : (r : Request) → is_crawler p.crawler_user_agents (agent_of r) ≡ true ↔ IsCrawler r
  unfolding is_crawler
  crawler_lem r =
      let agents = or_default p.crawler_user_agents default_crawler_user_agents in
      let same = lower_idem (Http.get r.header (text "User-Agent")) in
      (
        λ h.
            subst (λ u. OneOf (λ a. Infix u (to_lower a)) agents) same
              (any_agent→ agents (agent_of r) h),
        λ o.
            →any_agent agents (agent_of r)
              (subst (λ u. OneOf (λ a. Infix u (to_lower a)) agents) (sym same) o),
      )

  asset_lem : (r : Request) → is_skipped p.skipped_file_types (path_of r) ≡ false ↔ ¬ (IsAsset r)
  unfolding is_skipped
  asset_lem r =
      let types = or_default p.skipped_file_types default_skipped_types in
      (
        λ h o. ground (arith, h, →any_type types (path_of r) o),
        λ n. elim (Bool-cases (any_type types (path_of r))) [
          | inl found ↦ absurd (n (any_type→ types (path_of r) found))
          | inr missing ↦ missing
        ],
      )

  asks_lem : (r : Request) → asks_for_page web p r ≡ true ↔ AsksForPage r
  asks_lem r =
      let (buffered→, →buffered) = nonempty (Http.get r.header (text "X-Bufferbot")) in
      let (asked→, →asked) =
        some_lem (lookup (text "_escaped_fragment_") (web.query r.url.raw_query)) in
      (
        λ h. elim (or_true _ _ h) [ inl b ↦ inl (buffered→ b) | inr a ↦ inr (asked→ a) ],
        λ o. elim o [ inl b ↦ or_left _ _ (→buffered b) | inr a ↦ or_right _ _ (→asked a) ],
      )

  -- What the middleware is to prerender
  abbrev pub Wanted : Request → Type 0
  Wanted r =
      (agent_of r ≢ [])
      × ((r.method ≡ text "GET") ⊎ (r.method ≡ text "HEAD"))
      × (¬ (IsAsset r))
      × (AsksForPage r ⊎ IsCrawler r)

  -- `ShouldPrerender` says yes exactly to a GET or HEAD that names its agent, whose path does not end
  -- with a skipped file type, where the request asks for a page or its agent has the name of a crawler
  -- in it, in any case of letters.
  pub should_prerender-Wanted : (r : Request) → should_prerender web p r ≡ true ↔ Wanted r
  unfolding should_prerender
  should_prerender-Wanted r =
      let (gates→, →gates) =
        gates (is_empty (agent_of r))
          (not (r.method == text "GET") && not (r.method == text "HEAD"))
          (is_skipped p.skipped_file_types (path_of r)) (asks_for_page web p r)
          (is_crawler p.crawler_user_agents (agent_of r)) in
      let (methods→, →methods) = differ_lem r.method (text "GET") (text "HEAD") in
      let (agent→, →agent) = filled (agent_of r) in
      (
        λ h.
            let (e, m, s, o) = gates→ h in
            (
              agent→ e,
              methods→ m,
              (asset_lem r).0 s,
              either_lem (asks_lem r).0 (crawler_lem r).0 o,
            ),
        λ (e, m, s, o). →gates (
          →agent e,
          →methods m,
          (asset_lem r).1 s,
          either_lem (asks_lem r).1 (crawler_lem r).1 o,
        ),
      )
