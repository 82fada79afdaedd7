-- ===== src/Hotspot/Stripes.antt =====
-- What the floorplan and the power trace hold.
use native.Mathlib.Nat.{zero-add}
use thermal_placement.Base.{
  ℕ, zero, suc, ◌+◌, ◌≡◌, refl, sym, ap, ap₂, ◌∙◌, subst, List, [], ◌∷◌, map, some, ok, >>=-eq-ok,
  ok-injective, length, get_elem?, Option-cases, inl, inr, arith,
}
use thermal_placement.Base.Sort.{length-sort}
use thermal_placement.Hotspot.{
  Numbers, Region, Block, Files, region_le, read_regions, blocks_from, power_of, powers_of,
  export_sorted, export,
}

module _ {F : Type 0} (numbers : Numbers F) (base_power dynamic_scale : F) where
  powers_of-cons :
      (r : Region) (rows : List Region) (powers : List F)
      → powers_of numbers base_power dynamic_scale (r ∷ rows) ≡ ok powers
      → (activity : F) × (rest : List F) × (numbers.parse r.avg_normalized_activity ≡ some activity)
        × (powers_of numbers base_power dynamic_scale rows ≡ ok rest)
        × (power_of numbers base_power dynamic_scale activity ∷ rest ≡ powers)
  unfolding powers_of
  powers_of-cons r rows powers h = elim (Option-cases (numbers.parse r.avg_normalized_activity)) [
    | inl refused ↦ absurd (let bad = rw refused at h in cc)
    | inr (activity, read) ↦
        let (rest, all, set) =
          >>=-eq-ok (powers_of numbers base_power dynamic_scale rows) _ (rw read at h) in
        (activity, rest, read, all, ok-injective set)
  ]

  powers_of-get_elem? :
      (rows : List Region) (powers : List F)
      → powers_of numbers base_power dynamic_scale rows ≡ ok powers
      → (i : ℕ) (row : Region) → get_elem? rows i ≡ some row
      → (activity : F) × (numbers.parse row.avg_normalized_activity ≡ some activity)
        × (get_elem? powers i ≡ some (power_of numbers base_power dynamic_scale activity))
  powers_of-get_elem? [] powers h i row e = absurd cc
  powers_of-get_elem? (r ∷ rows) powers h zero row e =
      let (activity, rest, read, all, set) = powers_of-cons r rows powers h in
      let same : r ≡ row = cc in
      (
        activity,
        ap (λ (t : Region). numbers.parse t.avg_normalized_activity) (sym same) ∙ read,
        ap (λ l. get_elem? l 0) (sym set),
      )
  powers_of-get_elem? (r ∷ rows) powers h (suc i) row e =
      let (activity, rest, read, all, set) = powers_of-cons r rows powers h in
      let (other, parsed, there) = powers_of-get_elem? rows rest all i row e in
      (other, parsed, ap (λ l. get_elem? l (suc i)) (sym set) ∙ there)

  length-powers_of :
      (rows : List Region) (powers : List F)
      → powers_of numbers base_power dynamic_scale rows ≡ ok powers
      → length powers ≡ length rows
  unfolding powers_of
  length-powers_of [] powers h = ap length (sym (ok-injective h))
  length-powers_of (r ∷ rows) powers h =
      let (activity, rest, read, all, set) = powers_of-cons r rows powers h in
      ap length (sym set) ∙ ap suc (length-powers_of rows rest all)

  abbrev pub stripe : (block_w : F) → (idx : ℕ) → Region → Block F
  stripe w idx row = record {
    name = row.region;
    width = w;
    height = numbers.chip;
    left = numbers.scaled idx w;
  }

  blocks_from-get_elem? :
      (block_w : F) (idx : ℕ) (rows : List Region) (i : ℕ) (row : Region)
      → get_elem? rows i ≡ some row
      → get_elem? (blocks_from numbers base_power dynamic_scale block_w idx rows) i
        ≡ some (stripe block_w (idx + i) row)
  unfolding blocks_from
  blocks_from-get_elem? w idx [] i row e = absurd cc
  blocks_from-get_elem? w idx (r ∷ rows) zero row e =
      let same : r ≡ row = cc in
      let here : idx ≡ idx + 0 = omega arith in
      ap₂ (λ (t : Region) (n : ℕ). some (stripe w n t)) same here
  blocks_from-get_elem? w idx (r ∷ rows) (suc i) row e =
      let next : suc idx + i ≡ idx + suc i = omega arith in
      blocks_from-get_elem? w (suc idx) rows i row e ∙ ap (λ (n : ℕ). some (stripe w n row)) next

  map-blocks_from :
      (block_w : F) (idx : ℕ) (rows : List Region)
      → map
          (λ (b : Block F). b.name)
          (blocks_from numbers base_power dynamic_scale block_w idx rows)
        ≡ map (λ (r : Region). r.region) rows
  unfolding blocks_from
  map-blocks_from w idx [] = refl
  map-blocks_from w idx (r ∷ rows) = ap (◌∷◌ r.region) (map-blocks_from w (suc idx) rows)

  -- What the sorted rows are written as.
  pub record IsWritten (rows : List Region) (files : Files F) : Type 0 where
    pub names : files.names ≡ map (λ (r : Region). r.region) rows
    pub blocks : map (λ (b : Block F). b.name) files.floorplan ≡ files.names
    pub powers : length files.powers ≡ length rows
    pub row :
        (i : ℕ) (row : Region)
        → get_elem? rows i ≡ some row
        → (activity : F) × (numbers.parse row.avg_normalized_activity ≡ some activity)
          × (get_elem? files.powers i ≡ some (power_of numbers base_power dynamic_scale activity))
          × (get_elem? files.floorplan i
              ≡ some (stripe (numbers.over numbers.chip (length rows)) i row))

  pub export_sorted-IsWritten :
      (rows : List Region) (files : Files F)
      → export_sorted numbers base_power dynamic_scale rows ≡ ok files
      → IsWritten rows files
  unfolding export_sorted
  export_sorted-IsWritten [] files h = absurd cc
  export_sorted-IsWritten (r ∷ rows) files h =
      let (powers, all, set) =
        >>=-eq-ok (powers_of numbers base_power dynamic_scale (r ∷ rows)) _ h in
      let w = numbers.over numbers.chip (length (r ∷ rows)) in
      subst (λ t. IsWritten (r ∷ rows) t) (ok-injective set)
        (record {
          names = refl;
          blocks = map-blocks_from w 0 (r ∷ rows);
          powers = length-powers_of (r ∷ rows) powers all;
          row = λ i row e.
              let (activity, read, power) = powers_of-get_elem? (r ∷ rows) powers all i row e in
              (
                activity,
                read,
                power,
                blocks_from-get_elem? w 0 (r ∷ rows) i row e
                    ∙ ap (λ (n : ℕ). some (stripe w n row)) (zero-add i),
              );
        })

  -- Each row of the region table, in the order of the names, has its stripe in the floorplan and
  -- its power in the trace at one place: the stripes are equally wide and follow one another from
  -- the left, and the power is the base power and the scaled activity of that row. The floorplan,
  -- the names above the trace and the powers are equally many, and the names are the same.
  pub export-rows :
      (rows : List Region) (files : Files F)
      → export numbers base_power dynamic_scale rows ≡ ok files
      → (i : ℕ) (row : Region) → get_elem? (read_regions rows) i ≡ some row
      → (activity : F) × (numbers.parse row.avg_normalized_activity ≡ some activity)
        × (get_elem? files.powers i ≡ some (power_of numbers base_power dynamic_scale activity))
        × (get_elem? files.floorplan i
            ≡ some (stripe (numbers.over numbers.chip (length rows)) i row))
        × (map (λ (b : Block F). b.name) files.floorplan ≡ files.names)
        × (files.names ≡ map (λ (r : Region). r.region) (read_regions rows))
        × (length files.powers ≡ length rows)
  unfolding export read_regions
  export-rows rows files h i row e =
      let sorted = read_regions rows in
      let written = export_sorted-IsWritten sorted files h in
      let (activity, read, power, block) = written.row i row e in
      let many : length sorted ≡ length rows = length-sort region_le rows in
      (
        activity,
        read,
        power,
        block ∙ ap (λ (n : ℕ). some (stripe (numbers.over numbers.chip n) i row)) many,
        written.blocks,
        written.names,
        written.powers ∙ many,
      )
