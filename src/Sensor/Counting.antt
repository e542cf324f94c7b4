-- ===== src/Sensor/Counting.antt =====
-- sdi12_sensor.c: count_group, collect_group_indices and read_group_sync against plain descriptions.
use libsdi.Base.{
  ℕ, zero, suc, ◌+◌, ◌-◌, ◌≤◌, ◌<◌, ◌≡◌, refl, sym, ap, ◌∙◌, Bool, true, false, List, [], ◌∷◌, ◌++◌,
  some, arith, length, length-append, take, get_elem?, if◌then◌else◌, Bool-cases, inl, inr, ◌==◌,
}
use libsdi.Protocol.{max_params, ok}
use libsdi.Sensor.Types.{Param, Sensor}
use libsdi.Sensor.Groups.{in_group, count_loop, count_group, collect_loop, collect_group_indices}
use libsdi.Sensor.Api.{register_param}

-- An active parameter of the group.
abbrev pub is_member : ℕ → Param → Bool
is_member group p = if p.active then p.group == group else false

in_group-is_member : (group : ℕ) (p : Param) → in_group group p ≡ is_member group p
unfolding in_group
in_group-is_member group p = ground arith

-- The indices, from `i` on, of the parameters of a group.
abbrev pub positions : ℕ → ℕ → List Param → List ℕ
positions group i [] = []
positions group i (p ∷ ps) =
    let rest = positions group (i + 1) ps in if is_member group p then i ∷ rest else rest

pub length-positions_le : (g i : ℕ) (ps : List Param) → length (positions g i ps) ≤ length ps
length-positions_le g i [] = omega arith
length-positions_le g i (p ∷ ps) = ground (arith, length-positions_le g (i + 1) ps)

count_loop_lem :
    (g n i : ℕ) (ps : List Param)
    → n + length ps < 256
    → count_loop g n ps ≡ n + length (positions g i ps)
unfolding count_loop
count_loop_lem g n i [] h = omega arith
count_loop_lem g n i (p ∷ ps) h = elim (Bool-cases (is_member g p)) [
  | inl e ↦
      ground (arith, in_group-is_member g p, count_loop_lem g (n + 1) (i + 1) ps (omega arith))
  | inr e ↦ ground (arith, in_group-is_member g p, count_loop_lem g n (i + 1) ps (omega arith))
]

-- For a table of at most 20 parameters the `uint8_t` counter does not wrap: count_group is the
-- number of active parameters of the group.
pub count_group_lem :
    (params : List Param) (group : ℕ)
    → length params ≤ max_params
    → count_group params group ≡ length (positions group 0 params)
unfolding count_group
count_group_lem params group h = count_loop_lem group 0 0 params (omega arith) ∙ omega arith

pub count_group-le :
    (params : List Param) (group : ℕ)
    → length params ≤ max_params
    → count_group params group ≤ max_params
count_group-le params group h =
    omega (arith, count_group_lem params group h, length-positions_le group 0 params)

collect_loop_lem :
    (g i n : ℕ) (ps : List Param)
    → n + length ps ≤ max_params
    → i + length ps ≤ max_params
    → collect_loop g max_params i n ps ≡ positions g i ps
unfolding collect_loop
collect_loop_lem g i n [] h k = refl
collect_loop_lem g i n (p ∷ ps) h k = elim (Bool-cases (is_member g p)) [
  | inl e ↦ ground (
    arith,
    in_group-is_member g p,
    collect_loop_lem g (i + 1) (n + 1) ps (omega arith) (omega arith),
  )
  | inr e ↦
      ground
        (arith, in_group-is_member g p, collect_loop_lem g (i + 1) n ps (omega arith) (omega arith))
]

-- What a position leads to: a parameter of the group, which the table has there.
abbrev Leads : ℕ → ℕ → ℕ → List Param → Type 0
Leads g i idx ps =
    (p : Param) × (i ≤ idx) × (get_elem? ps (idx - i) ≡ some p) × (is_member g p ≡ true)

Leads-cons :
    (g i idx : ℕ) (p : Param) (ps : List Param) → Leads g (i + 1) idx ps → Leads g i idx (p ∷ ps)
Leads-cons g i idx p ps (q, le, e, hit) =
    let later : idx - i ≡ suc (idx - (i + 1)) = omega arith in (q, omega arith, rw later e, hit)

Leads-here : (g i : ℕ) (p : Param) (ps : List Param) → is_member g p ≡ true → Leads g i i (p ∷ ps)
Leads-here g i p ps hit = let here : i - i ≡ 0 = omega arith in (p, omega arith, rw here, hit)

positions-Leads :
    (g i k idx : ℕ) (ps : List Param) → get_elem? (positions g i ps) k ≡ some idx → Leads g i idx ps
positions-Leads g i k idx [] h = cc
positions-Leads g i zero idx (p ∷ ps) h = elim (Bool-cases (is_member g p)) [
  | inl e ↦ let same : i ≡ idx = ground arith in rw (← same) (Leads-here g i p ps e)
  | inr e ↦ Leads-cons g i idx p ps (positions-Leads g (i + 1) zero idx ps (rw e at h))
]
positions-Leads g i (suc k) idx (p ∷ ps) h = elim (Bool-cases (is_member g p)) [
  | inl e ↦ Leads-cons g i idx p ps (positions-Leads g (i + 1) k idx ps (rw e at h))
  | inr e ↦ Leads-cons g i idx p ps (positions-Leads g (i + 1) (suc k) idx ps (rw e at h))
]

-- Each collected index is that of a parameter of the group.
pub position_sound :
    (params : List Param) (group k idx : ℕ)
    → get_elem? (positions group 0 params) k ≡ some idx
    → (p : Param) × (get_elem? params idx ≡ some p) × (is_member group p ≡ true)
position_sound params group k idx h =
    let (p, le, e, hit) = positions-Leads group 0 k idx params h in
    let same : idx - 0 ≡ idx = omega arith in (p, rw same at e, hit)

is_member_parts :
    (group : ℕ) (p : Param) → is_member group p ≡ true → (p.active ≡ true) × (p.group ≡ group)
is_member_parts group p h = (ground arith, ground arith)

-- A parameter of the group has its index among the positions.
position_complete :
    (g i idx : ℕ) (ps : List Param) (p : Param)
    → get_elem? ps idx ≡ some p
    → is_member g p ≡ true
    → (k : ℕ) × (get_elem? (positions g i ps) k ≡ some (i + idx))
position_complete g i idx [] p h hit = cc
position_complete g i zero (q ∷ ps) p h hit =
    let same : q ≡ p = cc in
    let member : is_member g q ≡ true = rw same hit in (zero, rw member (ap some (omega arith)))
position_complete g i (suc idx) (q ∷ ps) p h hit =
    let (k, found) = position_complete g (i + 1) idx ps p h hit in
    let there : get_elem? (positions g (i + 1) ps) k ≡ some (i + suc idx) =
      found ∙ ap some (omega arith) in
    elim (Bool-cases (is_member g q)) [ inl e ↦ (suc k, rw e there) | inr e ↦ (k, rw e there) ]

-- For a table of at most 20 parameters, collect_group_indices gives the indices of the active
-- parameters of the group, in the order of the table: each index leads to such a parameter, and the
-- index of each such parameter is there.
pub collect_group_indices_lem :
    (params : List Param) (group : ℕ)
    → length params ≤ max_params
    → let indices = collect_group_indices params group max_params in
      (indices ≡ positions group 0 params)
      × ((k idx : ℕ)
          → get_elem? indices k ≡ some idx
          → (p : Param) × (get_elem? params idx ≡ some p) × (p.active ≡ true) × (p.group ≡ group))
      × ((idx : ℕ) (p : Param)
          → get_elem? params idx ≡ some p
          → p.active ≡ true
          → p.group ≡ group
          → (k : ℕ) × (get_elem? indices k ≡ some idx))
unfolding collect_group_indices
collect_group_indices_lem params group h =
    let same = collect_loop_lem group 0 0 params (omega arith) (omega arith) in
    (
      same,
      λ k idx e.
          let (p, there, hit) =
            position_sound params group k idx (ap (λ t. get_elem? t k) (sym same) ∙ e) in
          let (active, of_group) = is_member_parts group p hit in (p, there, active, of_group),
      λ idx p e active of_group.
          let (k, found) =
            position_complete group 0 idx params p e (ground (arith, active, of_group)) in
          (k, ap (λ t. get_elem? t k) same ∙ found ∙ ap some (omega arith)),
    )

positions-append :
    (g i : ℕ) (ps : List Param) (p : Param)
    → length (positions g i (ps ++ p ∷ []))
      ≡ length (positions g i ps) + (if is_member g p then 1 else 0)
positions-append g i [] p = ground arith
positions-append g i (q ∷ ps) p = ground (arith, positions-append g (i + 1) ps p)

-- In a table with room, registering a parameter for a group below 10 succeeds, raises the count of
-- that group by one, and leaves the count of every other group as it was.
count_group-register_param :
    {F W : Type 0} (s : Sensor F W) (g group decimals : ℕ) (shef units : List ℕ)
    → length s.params < max_params
    → group < 10
    → let r = register_param group (some shef) (some units) decimals s in
      (r.0 ≡ ok)
      × (count_group r.1.params g ≡ count_group s.params g + (if group == g then 1 else 0))
unfolding register_param in_group
count_group-register_param s g group decimals shef units h k =
    let p : Param = record {
      shef = take 3 shef;
      units = take 20 units;
      group = group;
      decimals = decimals;
      active = true;
    } in
    ground (
      arith,
      count_group_lem s.params g (omega arith),
      count_group_lem (s.params ++ p ∷ []) g (omega (arith, length-append s.params (p ∷ []))),
      positions-append g 0 s.params p,
    )
