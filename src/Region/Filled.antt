-- ===== src/Region/Filled.antt =====
-- Ranges of a memory that are filled by stores in turn.
use nupu_refsi.Prelude.{
  ℕ, ◌+◌, ◌-◌, ◌≤◌, ◌<◌, ◌≡◌, ◌⊎◌, inl, inr, refl, subst, ◌∙◌, true, List, some, ltb, length,
  get_or, arith, Bool-cases,
}
use nupu_refsi.Region.{MemoryDevice, Region, patch_inside, patch_outside}

module _ {S : Type 0} (memory : MemoryDevice S) (lo hi : ℕ) (region : Region memory lo hi) where
  -- The bytes from `a` to `b` are those of `f`, the others in the range are unchanged.
  pub record Filled (s s' : S) (f : ℕ → ℕ) (a b : ℕ) : Type 0 where
    pub ok : region.Ok s'
    pub inside : (x : ℕ) → a ≤ x → x < b → region.byte s' x ≡ f x
    pub outside : (x : ℕ) → lo ≤ x → x < hi → (x < a) ⊎ (b ≤ x) → region.byte s' x ≡ region.byte s x

  pub nothing-Filled : (s : S) (f : ℕ → ℕ) (a : ℕ) → region.Ok s → Filled s s f a a
  nothing-Filled s f a ok = record {
    ok = ok;
    inside = λ x p q. absurd (omega (arith, p, q));
    outside = λ x p q r. refl;
  }

  -- Fillings of adjacent ranges.
  pub then-Filled :
      (s t u : S) (f : ℕ → ℕ) (a b c : ℕ)
      → lo ≤ a
      → a ≤ b
      → b ≤ c
      → c ≤ hi
      → Filled s t f a b
      → Filled t u f b c
      → Filled s u f a c
  then-Filled s t u f a b c la ab bc ch p q = record {
    ok = q.ok;
    inside = λ x ax xc. elim (Bool-cases (ltb x b)) [
      | inl low ↦
          q.outside x (omega (arith, la, ax)) (omega (arith, xc, ch)) (inl (ground (arith, low)))
          ∙ p.inside x ax (ground (arith, low))
      | inr high ↦ q.inside x (ground (arith, high)) xc
    ];
    outside = λ x lx xh side.
        q.outside x lx xh (elim side [ inl l ↦ inl (omega (arith, l, ab)) | inr r ↦ inr r ])
        ∙ p.outside x lx xh (elim side [ inl l ↦ inl l | inr r ↦ inr (omega (arith, r, bc)) ]);
  }

  -- One store fills its range, from a to b.
  pub store_fills :
      (s : S) (f : ℕ → ℕ) (a k b : ℕ) (bs : List ℕ) (unit : ℕ)
      → region.Ok s
      → lo ≤ a
      → b ≤ hi
      → a + k ≡ b
      → length bs ≡ k
      → ((x : ℕ) → a ≤ x → x < b → get_or bs (x - a) 0 ≡ f x)
      → (t : S) × (memory.store s a k bs unit ≡ some (true, t)) × Filled s t f a b
  store_fills s f a k b bs unit ok la bh e size same =
      let (t, done, ok', view) = region.stores s a bs unit ok la (omega (arith, bh, e, size)) in
      (
        t,
        subst (λ z. memory.store s a z bs unit ≡ some (true, t)) size done,
        record {
          ok = ok';
          inside = λ x p q.
              view x (omega (arith, la, p)) (omega (arith, bh, q))
              ∙ patch_inside (region.byte s) a bs x p (omega (arith, q, e, size))
              ∙ same x p q;
          outside = λ x p q side.
              view x p q
              ∙ patch_outside (region.byte s) a bs x
                  (elim side [ inl l ↦ inl l | inr r ↦ inr (omega (arith, r, e, size)) ]);
        },
      )
