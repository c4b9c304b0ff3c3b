-- ===== src/Caddy/Loops.antt =====
-- Rules for the loops over a dispenser: an invariant, enough fuel, and lines that are known.
use swim.Prelude.{
  ℕ, zero, suc, ◌<◌, ◌≤◌, ◌≡◌, refl, arith, Bool, true, false, Option, none, some, Result, ok, err,
}
use swim.Caddy.{ConfigError, Dispenser, Reader, turn, resume, each_directive, each_line, block}

module _ {D : Type 0} (dispenser : Dispenser D) where
  -- The tokens that a cursor has in front of it: `Next`, `NextArg` and `NextBlock` never move back,
  -- and where they return true they have moved on.
  pub record Forward : Type 0 where
    pub left : D → ℕ
    pub next_on : (d : D) → (dispenser.next d).1 ≡ true → left (dispenser.next d).0 < left d
    pub next_stays : (d : D) → left (dispenser.next d).0 ≤ left d
    pub arg_stays : (d : D) → left (dispenser.next_arg d).0 ≤ left d
    pub line_on :
        (n : ℕ) (d : D)
        → (dispenser.next_block n d).1 ≡ true
        → left (dispenser.next_block n d).0 < left d
    pub line_stays : (n : ℕ) (d : D) → left (dispenser.next_block n d).0 ≤ left d

module _ {D A : Type 0} (dispenser : Dispenser D) where
  -- `P` of what is read, where something is.
  unfoldable pub Reads : (A → Type 0) → Option (D × Result ConfigError A) → Type 0
  Reads P none = Unit
  Reads P (some (d, ok a)) = P a
  Reads P (some (d, err e)) = Unit

  resume-Reads :
      (P : A → Type 0) (rest : Reader D A) (o : Option (D × Result ConfigError A))
      → ((a : A) (d : D) → P a → Reads P (rest a d))
      → Reads P o
      → Reads P (resume dispenser rest o)
  unfolding Reads resume
  resume-Reads P rest none k h = tt
  resume-Reads P rest (some (d, ok a)) k h = k a d h
  resume-Reads P rest (some (d, err e)) k h = tt

  module _ (P : A → Type 0) (body : Reader D A)
      (keep : (a : A) (d : D) → P a → Reads P (body a d)) where
    none-Reads : Reads P none
    unfolding Reads
    none-Reads = tt

    turn-Reads :
        (rest : Reader D A) (a : A) (r : D × Bool)
        → ((a : A) (d : D) → P a → Reads P (rest a d))
        → P a
        → Reads P (turn dispenser body rest a r)
    unfolding turn Reads
    turn-Reads rest a (d, true) k p = resume-Reads P rest (body a d) k (keep a d p)
    turn-Reads rest a (d, false) k p = p

    lines-Reads :
        (nesting fuel : ℕ) (a : A) (d : D)
        → P a
        → Reads P (each_line dispenser nesting fuel body a d)
    unfolding each_line
    lines-Reads nesting zero a d p = none-Reads
    lines-Reads nesting (suc fuel) a d p =
        turn-Reads _ a (dispenser.next_block nesting d) (lines-Reads nesting fuel) p

    pub block-Reads : (fuel : ℕ) (a : A) (d : D) → P a → Reads P (block dispenser fuel body a d)
    unfolding block
    block-Reads fuel a d p = lines-Reads (dispenser.nesting d) fuel a d p

    pub directives-Reads :
        (fuel : ℕ) (a : A) (d : D) → P a → Reads P (each_directive dispenser fuel body a d)
    unfolding each_directive
    directives-Reads zero a d p = none-Reads
    directives-Reads (suc fuel) a d p = turn-Reads _ a (dispenser.next d) (directives-Reads fuel) p

  module _ (f : Forward dispenser) where
    -- A reader is done, and has not moved back.
    unfoldable pub Done : ℕ → Option (D × Result ConfigError A) → Type 0
    Done n none = ⊥
    Done n (some (d, r)) = f.left d ≤ n

    Done-le : (m n : ℕ) (o : Option (D × Result ConfigError A)) → m ≤ n → Done m o → Done n o
    unfolding Done
    Done-le m n (some (d, r)) h k = omega arith
    Done-le m n none h k = k

    resume-Done :
        (rest : Reader D A) (m : ℕ) (o : Option (D × Result ConfigError A))
        → ((a : A) (d : D) → f.left d ≤ m → Done (f.left d) (rest a d))
        → Done m o
        → Done m (resume dispenser rest o)
    unfolding Done resume
    resume-Done rest m none k h = h
    resume-Done rest m (some (d, ok a)) k h = Done-le (f.left d) m (rest a d) h (k a d h)
    resume-Done rest m (some (d, err e)) k h = h

    module _ (body : Reader D A) (bound : ℕ)
        (ends : (a : A) (d : D) → f.left d < bound → Done (f.left d) (body a d)) where
      Done-here : (d d' : D) (a : A) → f.left d' ≤ f.left d → Done (f.left d) (some (d', ok a))
      unfolding Done
      Done-here d d' a h = h

      turn-Done :
          (rest : Reader D A) (a : A) (d d' : D) (b : Bool)
          → f.left d' ≤ f.left d
          → (b ≡ true → f.left d' < f.left d)
          → f.left d ≤ bound
          → ((a : A) (v : D) → f.left v < f.left d → Done (f.left v) (rest a v))
          → Done (f.left d) (turn dispenser body rest a (d', b))
      unfolding turn
      turn-Done rest a d d' true stays on within k = Done-le (f.left d') (f.left d) _ stays (
          resume-Done rest (f.left d') (body a d') (λ x v h. k x v (omega (arith, on refl)))
            (ends a d' (omega (arith, on refl))))
      turn-Done rest a d d' false stays on within k = Done-here d d' a stays

      lines-Done :
          (nesting fuel : ℕ) (a : A) (d : D)
          → f.left d < fuel
          → f.left d ≤ bound
          → Done (f.left d) (each_line dispenser nesting fuel body a d)
      unfolding each_line
      lines-Done nesting zero a d h w = absurd (omega arith)
      lines-Done nesting (suc fuel) a d h w =
          turn-Done _ a d (dispenser.next_block nesting d).0 (dispenser.next_block nesting d).1
            (f.line_stays nesting d) (f.line_on nesting d) w
            (λ x v less. lines-Done nesting fuel x v (omega arith) (omega arith))

      pub block-Done :
          (fuel : ℕ) (a : A) (d : D)
          → f.left d < fuel
          → f.left d ≤ bound
          → Done (f.left d) (block dispenser fuel body a d)
      unfolding block
      block-Done fuel a d h w = lines-Done (dispenser.nesting d) fuel a d h w

      pub directives-Done :
          (fuel : ℕ) (a : A) (d : D)
          → f.left d < fuel
          → f.left d ≤ bound
          → Done (f.left d) (each_directive dispenser fuel body a d)
      unfolding each_directive
      directives-Done zero a d h w = absurd (omega arith)
      directives-Done (suc fuel) a d h w =
          turn-Done _ a d (dispenser.next d).0 (dispenser.next d).1 (f.next_stays d) (f.next_on d) w
            (λ x v less. directives-Done fuel x v (omega arith) (omega arith))
