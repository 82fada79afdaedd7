-- ===== src/Tsi/Args/RoundTrip.antt =====
-- Accesses written as arguments, and their parsing.
use thermal_placement.Base.{
  take-front, ℕ, zero, suc, ◌+◌, ◌-◌, ◌%◌, ◌^◌, ◌<◌, ◌≡◌, refl, sym, ap, ap₂, ◌∙◌, Bool, true,
  false, Bool-cases, inl, inr, List, [], ◌∷◌, ◌++◌, map, ok, if◌then◌else◌, length, drop, All,
  All-append, All-map, append_assoc, append-nil, arith,
}
use thermal_placement.Base.Text.{codes, strtoull16}
use thermal_placement.Base.Text.Hex.{
  IsHex, hex_text, hex_text-IsHex, hex_value-hex_text, strtoull16-hex, NoColon, IsHex-NoColon,
  find-NoColon,
}
use thermal_placement.Tsi.{Tsi, InitAccess}
use thermal_placement.Tsi.Args.{
  write_flag, read_flag, push_access, parse_write, parse_arg, parse_htif_args, scan_arg, scan_args,
  defaults, construct,
}

module _ (k j : ℕ) where
  -- An access as an argument, with `k` digits of the address and `j` of the data.
  abbrev pub written : InitAccess → List ℕ
  written p =
      if p.store
      then write_flag ++ (hex_text k p.address ++ (codes ":0x" ++ hex_text j p.stdata))
      else read_flag ++ hex_text k p.address

  -- The numbers fit their digits and their types; a read carries no data.
  pub record IsWritable (p : InitAccess) : Type 0 where
    pub address_digits : p.address < 16 ^ k
    pub address_fits : p.address < 2 ^ 64
    pub stdata_digits : p.stdata < 16 ^ j
    pub stdata_fits : p.stdata < 2 ^ 32
    pub reads_nothing : p.store ≡ false → p.stdata ≡ 0

strtoull16-hex_text : (k n : ℕ) → n < 16 ^ k → n < 2 ^ 64 → strtoull16 (hex_text k n) ≡ n
strtoull16-hex_text k n h fits =
    let value = hex_value-hex_text k n h in
    strtoull16-hex (hex_text k n) (hex_text-IsHex k n) ∙ ground arith

write_flag-NoColon : All NoColon write_flag
write_flag-NoColon = ground arith

drop_behind : (cs es : List ℕ) (n : ℕ) → n ≡ length cs + 3 → drop n (cs ++ (codes ":0x" ++ es)) ≡ es
drop_behind [] es n e = rw e refl
drop_behind (c ∷ cs) es zero e = absurd (omega arith)
drop_behind (c ∷ cs) es (suc n) e = drop_behind cs es n (omega arith)

-- The pieces of a write argument.
parse_write_lem :
    (t : Tsi) (cs es : List ℕ) (a v : ℕ)
    → All NoColon cs
    → strtoull16 cs ≡ a
    → strtoull16 es ≡ v
    → parse_write t (write_flag ++ (cs ++ (codes ":0x" ++ es)))
      ≡ ok (push_access t (record { address = a; stdata = v % 2 ^ 32; store = true }))
unfolding parse_write
parse_write_lem t cs es a v plain ea ev =
    let found =
      find-NoColon (write_flag ++ cs) (codes "0x") es
        (All-append NoColon write_flag cs write_flag-NoColon plain) in
    let width : length (write_flag ++ cs) - 14 ≡ length cs = omega arith in
    let behind = drop_behind (write_flag ++ cs) es (length (write_flag ++ cs) + 3) refl in
    rw (parse_write, found, width, take-front cs (codes ":0x" ++ es), behind, ea, ev) refl

parse_arg-written :
    (k j : ℕ) (t : Tsi) (p : InitAccess)
    → IsWritable k j p
    → parse_arg t (written k j p) ≡ ok (push_access t p)
unfolding parse_arg
parse_arg-written k j t p w = elim (Bool-cases p.store) [
  | inl writes ↦
      let plain =
        All-map IsHex NoColon (hex_text k p.address) IsHex-NoColon (hex_text-IsHex k p.address) in
      let address = strtoull16-hex_text k p.address w.address_digits w.address_fits in
      let fits : p.stdata < 2 ^ 64 = omega (arith, w.stdata_fits) in
      let stdata = strtoull16-hex_text j p.stdata w.stdata_digits fits in
      let parsed =
        parse_write_lem t (hex_text k p.address) (hex_text j p.stdata) p.address p.stdata plain
          address stdata in
      let same : p.stdata % 2 ^ 32 ≡ p.stdata = omega arith in
      rw (writes, parsed)
        (ap
          (λ (v : ℕ). ok (push_access t (record { address = p.address; stdata = v; store = true })))
          same)
  | inr reads ↦
      let address = strtoull16-hex_text k p.address w.address_digits w.address_fits in
      let nothing = w.reads_nothing reads in
      rw reads (
        ap₂ (λ (a v : ℕ). ok (push_access t (record { address = a; stdata = v; store = false })))
          address (sym nothing))
]

parse_htif_args-written :
    (k j : ℕ) (t : Tsi) (ps : List InitAccess)
    → All (IsWritable k j) ps
    → parse_htif_args t (map (written k j) ps)
      ≡ ok (record t { init_accesses = t.init_accesses ++ ps })
unfolding parse_htif_args
parse_htif_args-written k j t [] all =
    ap (λ l. ok (record t { init_accesses = l })) (sym (append-nil t.init_accesses))
parse_htif_args-written k j t (p ∷ ps) (w, all) =
    rw (parse_htif_args, parse_arg-written k j t p w)
      (parse_htif_args-written k j (push_access t p) ps all
        ∙ ap (λ l. ok (record t { init_accesses = l })) (append_assoc t.init_accesses (p ∷ []) ps))

scan_arg-written :
    (k j : ℕ) (can : Bool) (t : Tsi) (p : InitAccess) → scan_arg can t (written k j p) ≡ t
unfolding scan_arg
scan_arg-written k j can t p = elim (Bool-cases p.store) [
  | inl writes ↦ rw writes refl
  | inr reads ↦ rw reads refl
]

scan_args-written :
    (k j : ℕ) (can : Bool) (t : Tsi) (ps : List InitAccess)
    → scan_args can t (map (written k j) ps) ≡ t
unfolding scan_args
scan_args-written k j can t [] = refl
scan_args-written k j can t (p ∷ ps) =
    ap (λ u. scan_args can u (map (written k j) ps)) (scan_arg-written k j can t p)
    ∙ scan_args-written k j can t ps

-- A host that is started with accesses written as arguments, in hexadecimal digits that hold them,
-- has exactly these accesses, in order, and the default of every other setting.
pub construct-written :
    (k j : ℕ) (program : List ℕ) (ps : List InitAccess) (can_have_loadmem : Bool)
    → All (IsWritable k j) ps
    → construct (program ∷ map (written k j) ps) can_have_loadmem
      ≡ ok (record defaults { init_accesses = ps })
unfolding construct
construct-written k j program ps can all =
    ap (λ u. parse_htif_args u (map (written k j) ps)) (scan_args-written k j can defaults ps)
    ∙ parse_htif_args-written k j defaults ps all
