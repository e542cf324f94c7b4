-- ===== src/Sensor/GroupValues.antt =====
-- sdi12_sensor.c: the values that read_group_sync reads for a group.
use libsdi.Base.{
  ℕ, ◌+◌, ◌≤◌, ◌≡◌, refl, ap, ◌∙◌, true, List, [], ◌∷◌, Option, none, some, All, arith, length, ltb,
  Bool-cases, inl, inr, ltb→lt,
}
use libsdi.Protocol.{max_params}
use libsdi.Sensor.Types.{Floats, Value, Param, Sensor}
use libsdi.Sensor.Groups.{collect_group_indices, read_loop, read_values, read_group_sync}
use libsdi.Sensor.Valid.{IsPrintable, ReadOk, IsCache}
use libsdi.Sensor.Counting.{positions, length-positions_le, collect_group_indices_lem}

-- What a callback returns for some indices, one after the other.
abbrev pub read_each : {F W : Type 0} → Option (ℕ → W → Value F × W) → List ℕ → W → List (Value F)
read_each none is w = []
read_each (some read) [] w = []
read_each (some read) (i ∷ is) w = (read i w).0 ∷ read_each (some read) is (read i w).1

module _ {F W : Type 0} where
  read_loop-read_each :
      (read : ℕ → W → Value F × W) (n : ℕ) (is : List ℕ) (w : W)
      → n + length is ≤ max_params
      → (read_loop read n is w).0 ≡ read_each (some read) is w
  unfolding read_loop
  read_loop-read_each read n [] w h = refl
  read_loop-read_each read n (i ∷ is) w h =
      let room : ltb n max_params ≡ true = ground arith in
      rw room
        (ap (◌∷◌ (read i w).0) (read_loop-read_each read (n + 1) is (read i w).1 (omega arith)))

  read_values-read_each :
      (read : Option (ℕ → W → Value F × W)) (is : List ℕ) (w : W)
      → length is ≤ max_params
      → (read_values read is w).0 ≡ read_each read is w
  unfolding read_values
  read_values-read_each none is w h = refl
  read_values-read_each (some read) is w h = read_loop-read_each read 0 is w (omega (arith, h))

  -- For a table of at most 20 parameters, each active parameter of the group is read once, in order.
  pub read_values-positions :
      (read : Option (ℕ → W → Value F × W)) (params : List Param) (group : ℕ) (w : W)
      → length params ≤ max_params
      → (read_values read (collect_group_indices params group max_params) w).0
        ≡ read_each read (positions group 0 params) w
  read_values-positions read params group w h =
      ap (λ (is : List ℕ). (read_values read is w).0) (collect_group_indices_lem params group h).0
      ∙ read_values-read_each read (positions group 0 params) w
          (omega (arith, length-positions_le group 0 params, h))

module _ {F W : Type 0} (fl : Floats F) where
  read_loop-IsCache :
      (read : ℕ → W → Value F × W) (count : ℕ) (is : List ℕ) (w : W)
      → ReadOk fl (some read)
      → count ≤ max_params
      → (count + length (read_loop read count is w).0 ≤ max_params)
        × All (IsPrintable fl) (read_loop read count is w).0
  unfolding read_loop
  read_loop-IsCache read count [] w reads h = (omega arith, tt)
  read_loop-IsCache read count (i ∷ is) w reads h = elim (Bool-cases (ltb count max_params)) [
    | inl e ↦
        let (fits, all) =
          read_loop-IsCache read (count + 1) is (read i w).1 reads
            (omega (arith, ltb→lt count max_params e)) in
        rw e (omega arith, (reads i w, all))
    | inr e ↦ rw e (omega arith, tt)
  ]

  read_values-IsCache :
      (read : Option (ℕ → W → Value F × W)) (is : List ℕ) (w : W)
      → ReadOk fl read
      → IsCache fl (read_values read is w).0
  unfolding read_values
  read_values-IsCache none is w h = (omega arith, tt)
  read_values-IsCache (some read) is w h =
      let (fits, all) = read_loop-IsCache read 0 is w h (omega arith) in (omega arith, all)

  -- If read_param, where there is one, returns printable values, read_group_sync leaves at most 20
  -- values in the cache, all printable.
  pub read_group_sync-IsCache :
      (group : ℕ) (s : Sensor F W)
      → ReadOk fl s.cb.read_param
      → IsCache fl (read_group_sync group s).data_cache
  unfolding read_group_sync
  read_group_sync-IsCache group s h = read_values-IsCache s.cb.read_param _ s.world h
