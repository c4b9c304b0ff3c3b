-- ===== src/Handler/Aligned.antt =====
-- Two maps, where each key of the first has its name in the second.
use swim.Prelude.{◌≡◌, ◌≢◌, subst, sym, ◌∙◌, none, some, inl, inr, Eq}
use swim.Prelude.Dict.{
  Dict, lookup, insert, erase, NodupKeys, lookup-erase_ne, erase_other, insert-NodupKeys,
  erase-NodupKeys, lookup-insert_self, lookup-insert_ne, lookup-insert_cases,
}

module _ {K : Type 0} ⦃eq : Eq K⦄ where
  abbrev pub Has : {V : Type 0} → K → Dict K V → Type 0
  Has {V} k d = (v : V) × (lookup k d ≡ some v)

  pub Has-insert : {V : Type 0} (j k : K) (v : V) (d : Dict K V) → Has j d → Has j (insert k v d)
  Has-insert j k v d (w, h) = elim (eq.dec j k) [
    | yes p ↦ (v, rw p (lookup-insert_self k v d))
    | no n ↦ (w, lookup-insert_ne j k v d n ∙ h)
  ]

  module _ {V W : Type 0} (name : K → K) (name_inj : (j k : K) → name j ≡ name k → j ≡ k) where
    pub record Aligned (m : Dict K V) (f : Dict K W) : Type 0 where
      pub nodup : NodupKeys m
      pub named : (k : K) → Has k m → Has (name k) f

    pub Aligned-point :
        (k : K) (v : V) (w : W) (m : Dict K V) (f : Dict K W)
        → Aligned m f
        → Aligned (insert k v m) (insert (name k) w f)
    Aligned-point k v w m f a = record {
      nodup = insert-NodupKeys k v m a.nodup;
      named = λ j (u, h). elim (lookup-insert_cases j k v u m h) [
        | inl (p, _) ↦ (w, rw p (lookup-insert_self (name k) w f))
        | inr q ↦ Has-insert (name j) (name k) w f (a.named j (u, q))
      ];
    }

    pub Aligned-register :
        (k : K) (w : W) (m : Dict K V) (f : Dict K W) → Aligned m f → Aligned m (insert k w f)
    Aligned-register k w m f a = record {
      nodup = a.nodup;
      named = λ j h. Has-insert (name j) k w f (a.named j h);
    }

    pub Aligned-touch :
        (k : K) (v : V) (m : Dict K V) (f : Dict K W)
        → Has k m
        → Aligned m f
        → Aligned (insert k v m) f
    Aligned-touch k v m f present a = record {
      nodup = insert-NodupKeys k v m a.nodup;
      named = λ j (u, h). elim (lookup-insert_cases j k v u m h) [
        | inl (p, _) ↦ subst (λ i. Has (name i) f) (sym p) (a.named k present)
        | inr q ↦ a.named j (u, q)
      ];
    }

    pub Aligned-forget :
        (k : K) (m : Dict K V) (f : Dict K W) → Aligned m f → Aligned (erase k m) (erase (name k) f)
    Aligned-forget k m f a = record {
      nodup = erase-NodupKeys k m a.nodup;
      named = λ j (u, h).
          let other : j ≢ k = erase_other j k u m a.nodup h in
          let (w, q) = a.named j (u, sym (lookup-erase_ne j k m other) ∙ h) in
          (w, lookup-erase_ne (name j) (name k) f (λ e. other (name_inj j k e)) ∙ q);
    }

    -- Keys that are not in the first map are free to go.
    pub Aligned-drop :
        (k : K) (m : Dict K V) (f : Dict K W)
        → lookup k m ≡ none
        → Aligned m f
        → Aligned m (erase (name k) f)
    Aligned-drop k m f absent a = record {
      nodup = a.nodup;
      named = λ j (u, h).
          let other : j ≢ k = (λ e. cc) in
          let (w, q) = a.named j (u, h) in
          (w, lookup-erase_ne (name j) (name k) f (λ e. other (name_inj j k e)) ∙ q);
    }
