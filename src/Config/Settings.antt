-- ===== src/Config/Settings.antt =====
-- A Caddyfile's lines are settings, made in their order.
use swim.Prelude.{
  ℕ, zero, suc, ◌+◌, ◌<◌, ◌≡◌, refl, ap, ◌∙◌, arith, true, false, Option, none, some, List, [], ◌∷◌,
  ◌++◌, Text, text, text_eq, to_lower, Result, ok, err, ◌>>=◌, length,
}
use swim.Prelude.Int.{ℤ}
use swim.Prelude.Dict.{lookup}
use swim.Prelude.Actions.{Action, and_then}
use swim.Caddy.{
  ConfigError, syntax_err, Dispenser, Reader, arg, arg_found, turn, resume, each_directive,
  each_line, block, once,
}
use swim.Caddy.Lines.{Lines, last, line, File}
use swim.Config.Options.{
  Options, Setter, setters, set_result, apply_setter, unmarshal_option, unmarshal_caddyfile,
}

module _ (parse_duration : Text → Option ℤ) where
  abbrev pub set_found : Text → Text → Options → Option Setter → Result ConfigError Options
  set_found key v g none = err (syntax_err (text "invalid github_preview option: " ++ key))
  set_found key v g (some f) = f g v

  -- The settings of the lines, one behind the other; the first that is refused ends it.
  unfoldable pub set_all : List (Text × Text) → Options → Result ConfigError Options
  set_all [] g = ok g
  set_all ((key, v) ∷ ls) g =
      set_found key v g (lookup (to_lower key) (setters parse_duration)) >>= set_all ls

  module _ {D : Type 0} (dispenser : Dispenser D) where
    abbrev stopped : Option Setter → D → D → D
    stopped none d1 d2 = d1
    stopped (some f) d1 d2 = d2

    found_arg :
        (h : Text → Action D ConfigError Options) (d1 d2 : D) (v : Text)
        → dispenser.next_arg d1 ≡ (d2, true)
        → dispenser.val d2 ≡ v
        → and_then h (arg dispenser d1) ≡ h v d2
    unfolding and_then arg
    found_arg h d1 d2 v moved shown =
        ap (λ r. and_then h (arg_found dispenser r)) moved ∙ ap (λ x. h x d2) shown

    apply_lem :
        (o : Option Setter) (g : Options) (key v : Text) (d1 d2 : D)
        → dispenser.next_arg d1 ≡ (d2, true)
        → dispenser.val d2 ≡ v
        → apply_setter parse_duration dispenser key o g d1 ≡ (stopped o d1 d2, set_found key v g o)
    apply_lem none g key v d1 d2 moved shown = refl
    apply_lem (some f) g key v d1 d2 moved shown =
        found_arg (λ x. set_result parse_duration dispenser (f g x)) d1 d2 v moved shown

    option_lem :
        (g : Options) (key v : Text) (d1 d2 : D)
        → dispenser.val d1 ≡ key
        → dispenser.next_arg d1 ≡ (d2, true)
        → dispenser.val d2 ≡ v
        → unmarshal_option parse_duration dispenser g d1 ≡ (
          stopped (lookup (to_lower key) (setters parse_duration)) d1 d2,
          set_found key v g (lookup (to_lower key) (setters parse_duration)),
        )
    unfolding unmarshal_option
    option_lem g key v d1 d2 named moved shown =
        ap
          (λ k.
            apply_setter parse_duration dispenser k (lookup (to_lower k) (setters parse_duration)) g
              d1)
          named
        ∙ apply_lem (lookup (to_lower key) (setters parse_duration)) g key v d1 d2 moved shown

    -- A reader has come to the result `r`, and to `e` if that is no error.
    abbrev Comes : Option (D × Result ConfigError Options) → Result ConfigError Options → D → Type 0
    Comes o r e = (d : D) × (o ≡ some (d, r)) × ((g : Options) → r ≡ ok g → d ≡ e)

    resume-Comes :
        (rest : Reader D Options) (ls : List (Text × Text)) (d e : D)
        (r : Result ConfigError Options)
        → ((g : Options) → r ≡ ok g → Comes (rest g d) (set_all ls g) e)
        → Comes (resume dispenser rest (some (d, r))) (r >>= set_all ls) e
    unfolding resume
    resume-Comes rest ls d e (ok g) k = k g refl
    resume-Comes rest ls d e (err x) k = (d, refl, λ g same. absurd (cc))

    found-Comes :
        (rest : Reader D Options) (key v : Text) (ls : List (Text × Text)) (g : Options)
        (d1 d2 e : D) (o : Option Setter)
        → ((g : Options) → Comes (rest g d2) (set_all ls g) e)
        → Comes
            (resume dispenser rest (some (stopped o d1 d2, set_found key v g o)))
            (set_found key v g o >>= set_all ls)
            e
    found-Comes rest key v ls g d1 d2 e none k = resume-Comes rest ls d1 e _ (λ h same. absurd (cc))
    found-Comes rest key v ls g d1 d2 e (some f) k = resume-Comes rest ls d2 e (f g v) (λ h _. k h)

    abbrev option_body : Reader D Options
    option_body = once dispenser (unmarshal_option parse_duration dispenser)

    lines-Comes :
        (n : ℕ) (ls : List (Text × Text)) (d e : D) (fuel : ℕ) (g : Options)
        → Lines dispenser n ls d e
        → length ls < fuel
        → Comes (each_line dispenser n fuel option_body g d) (set_all ls g) e
    unfolding each_line turn set_all
    lines-Comes n ls d e zero g lines enough = absurd (omega arith)
    lines-Comes n [] d e (suc fuel) g (last _ _ stop) enough = (
      e,
      ap (turn dispenser option_body (each_line dispenser n fuel option_body) g) stop,
      λ h same. refl,
    )
    lines-Comes n (_ ∷ ls) d e (suc fuel) g (line key v _ _ d1 d2 _ moved named arg shown rest)
          enough =
        let (d', run, ends) =
          found-Comes (each_line dispenser n fuel option_body) key v ls g d1 d2 e
            (lookup (to_lower key) (setters parse_duration))
            (λ h. lines-Comes n ls d2 e fuel h rest (omega arith)) in
        (
          d',
          ap (turn dispenser option_body (each_line dispenser n fuel option_body) g) moved
              ∙ ap (λ r. resume dispenser (each_line dispenser n fuel option_body) (some r))
                  (option_lem g key v d1 d2 named arg shown)
              ∙ run,
          ends,
        )

    abbrev directive_body : ℕ → Reader D Options
    directive_body fuel = block dispenser fuel option_body

    resume-ends :
        (rest : Reader D Options) (d stop finish : D) (r : Result ConfigError Options)
        → ((g : Options) → r ≡ ok g → d ≡ stop)
        → ((g : Options) → rest g stop ≡ some (finish, ok g))
        → (v : D) × (resume dispenser rest (some (d, r)) ≡ some (v, r))
    unfolding resume
    resume-ends rest d stop finish (ok g) there k = (finish, ap (rest g) (there g refl) ∙ k g)
    resume-ends rest d stop finish (err x) there k = (d, refl)

    no_directive :
        (fuel : ℕ) (body : Reader D Options) (stop finish : D)
        → dispenser.next stop ≡ (finish, false)
        → 0 < fuel
        → (g : Options) → each_directive dispenser fuel body g stop ≡ some (finish, ok g)
    unfolding each_directive turn
    no_directive zero body stop finish ends some_left g = absurd (omega arith)
    no_directive (suc fuel) body stop finish ends some_left g =
        ap (turn dispenser body (each_directive dispenser fuel body) g) ends

    pub unmarshal-set_all :
        (fuel : ℕ) (ls : List (Text × Text)) (g : Options) (d : D)
        → File dispenser ls d
        → length ls + 1 < fuel
        → (v : D) × (unmarshal_caddyfile parse_duration dispenser fuel g d ≡ some (v, set_all ls g))
    unfolding unmarshal_caddyfile each_directive turn block
    unmarshal-set_all zero ls g d file enough = absurd (omega arith)
    unmarshal-set_all (suc fuel) ls g d file enough =
        let n = dispenser.nesting file.start in
        let body = directive_body (suc fuel) in
        let rest = each_directive dispenser fuel body in
        let (d', run, ends) =
          lines-Comes n ls file.start file.stop (suc fuel) g file.lines (omega arith) in
        let (v, same) =
          resume-ends rest d' file.stop file.finish (set_all ls g) ends
            (no_directive fuel body file.stop file.finish file.ends (omega arith)) in
        (v, ap (turn dispenser body rest g) file.found ∙ ap (resume dispenser rest) run ∙ same)
