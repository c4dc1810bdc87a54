-- ===== src/Memory/Pm/Blocks.antt =====
-- The blocks of a group through an allocation, a release and the constructor's pass.
use cofuos.Prelude.{
  ℕ, ◌+◌, ◌*◌, ◌<◌, ◌≡◌, ap, ◌∙◌, inl, inr, true, false, ltb, if◌then◌else◌, arith, Bool-cases,
}
use cofuos.Memory.Pm.{Bmp, page_size, set_free, is_full, mark, pierce, build_solid}
use cofuos.Memory.Pm.Group.{IsGroup}
use cofuos.Memory.Pm.Mark.{
  last_free, last_free-le, last_free-lt, last_free-edge, last_free_above, free-mark, solid-mark,
  free-pierce, solid-pierce, pierce_outside,
}
use cofuos.Memory.Pm.Search.{IsGroup-solid}

-- A group reads its own blocks only.
pub IsGroup-cong :
    (m m' : Bmp) (base k : ℕ)
    → ((i : ℕ) → i < page_size → m' (base + i) ≡ m (base + i))
    → IsGroup m base k
    → IsGroup m' base k
IsGroup-cong m m' base k e g = record {
  inside = g.inside;
  pierced = λ i l. ap (λ b. b.solid) (e i (omega (arith, g.inside))) ∙ g.pierced i l;
  solid = λ i l r. ap (λ b. b.solid) (e i r) ∙ g.solid i l r;
  used = λ i l r. ap (λ b. b.free) (e i r) ∙ g.used i l r;
  edge = ground (arith, e k g.inside, g.edge);
}

module _ (m : Bmp) (base k : ℕ) where
  abbrev taken : Bmp
  taken = set_free m (base + k) false

  pub mark-IsGroup : IsGroup m base k → IsGroup (mark base taken k) base (last_free base taken k)
  mark-IsGroup g = record {
    inside = omega (arith, last_free-le base taken k, g.inside);
    pierced =
        λ i l. ground (arith, solid-mark base taken k i, last_free-le base taken k, g.pierced i);
    solid = λ i l r. ground (arith, solid-mark base taken k i, g.solid i);
    used = λ i l r.
        ground (arith, free-mark base taken k (base + i), last_free_above base taken k i, g.used i);
    edge = ground (
      arith,
      last_free-edge base taken k,
      free-mark base taken k (base + last_free base taken k),
    );
  }

-- A group that is not full has its boundary at a free block.
pub boundary-free :
    (m : Bmp) (page k : ℕ)
    → IsGroup m (page * page_size) k
    → is_full m page ≡ false
    → (m (page * page_size + k)).free ≡ true
unfolding is_full
boundary-free m page k g f = elim (g.edge) [
  | inl e ↦ e
  | inr e ↦
      let here : page * page_size + k ≡ page * page_size = omega arith in
      let s = g.solid k (omega arith) g.inside in rw here (ground (arith, rw here at s))
]

module _ (m : Bmp) (base k off : ℕ) where
  abbrev returned : Bmp
  returned = set_free m (base + off) true

  pub pierce-IsGroup :
      IsGroup m base k
      → off < page_size
      → IsGroup (pierce base returned off) base (if ltb off k then k else off)
  pierce-IsGroup g l = elim (Bool-cases (ltb off k)) [
    | inl e ↦ rw e (record {
      inside = g.inside;
      pierced = λ i a. ground (
        arith,
        solid-pierce base k returned off i (λ n b. ground (arith, IsGroup-solid m base k n g)),
        pierce_outside base returned off (base + i),
        g.pierced i,
      );
      solid = λ i a r. ground (arith, pierce_outside base returned off (base + i), g.solid i);
      used = λ i a r. ground (arith, free-pierce base returned off (base + i), g.used i);
      edge = ground (arith, free-pierce base returned off (base + k), g.edge);
    })
    | inr e ↦ rw e (record {
      inside = l;
      pierced = λ i a.
          solid-pierce base k returned off i (λ n b. ground (arith, IsGroup-solid m base k n g)) a;
      solid = λ i a r. ground (arith, pierce_outside base returned off (base + i), g.solid i);
      used = λ i a r. ground (arith, free-pierce base returned off (base + i), g.used i);
      edge = inl (ground (arith, free-pierce base returned off (base + off)));
    })
  ]

-- The constructor's pass gives a group with nothing solid the boundary that it needs.
pub build_solid-IsGroup :
    (m : Bmp) (base : ℕ)
    → ((i : ℕ) → i < page_size → (m (base + i)).solid ≡ false)
    → IsGroup (build_solid base m) base (last_free base m page_size)
unfolding build_solid
build_solid-IsGroup m base s = record {
  inside = last_free-lt base m page_size (omega arith);
  pierced =
      λ i l. ground (arith, solid-mark base m page_size i, last_free-le base m page_size, s i);
  solid = λ i l r. ground (arith, solid-mark base m page_size i);
  used = λ i l r.
      ground (arith, free-mark base m page_size (base + i), last_free_above base m page_size i);
  edge = ground (
    arith,
    last_free-edge base m page_size,
    free-mark base m page_size (base + last_free base m page_size),
  );
}
