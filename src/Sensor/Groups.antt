-- ===== src/Sensor/Groups.antt =====
-- sdi12_sensor.c: the parameters of a measurement group, counted, collected and read.
use libsdi.Base.{
  ℕ, ◌+◌, ◌%◌, ◌^◌, Bool, true, ◌&&◌, List, [], ◌∷◌, Option, none, some, ltb, ◌==◌, if◌then◌else◌,
}
use libsdi.Protocol.{max_params}
use libsdi.Sensor.Types.{Param, Value, Sensor}

unfoldable pub in_group : ℕ → Param → Bool
in_group group p = p.active && p.group == group

-- The loop of count_group, with the `uint8_t` counter `n`.
unfoldable pub count_loop : ℕ → ℕ → List Param → ℕ
count_loop group n [] = n
count_loop group n (p ∷ ps) = count_loop group (if in_group group p then (n + 1) % 2 ^ 8 else n) ps

unfoldable pub count_group : List Param → ℕ → ℕ
count_group params group = count_loop group 0 params

-- The loop of collect_group_indices: `i` is the index of the next parameter, `n` those collected.
unfoldable pub collect_loop : ℕ → ℕ → ℕ → ℕ → List Param → List ℕ
collect_loop group max i n [] = []
collect_loop group max i n (p ∷ ps) =
    let hit = in_group group p in
    let rest = collect_loop group max ((i + 1) % 2 ^ 8) (if hit then (n + 1) % 2 ^ 8 else n) ps in
    if ltb n max then (if hit then i ∷ rest else rest) else []

unfoldable pub collect_group_indices : List Param → ℕ → ℕ → List ℕ
collect_group_indices params group max = collect_loop group max 0 0 params

module _ {F W : Type 0} where
  -- The loop of read_group_sync, from a cache of `count` values on.
  unfoldable pub read_loop : (ℕ → W → Value F × W) → ℕ → List ℕ → W → List (Value F) × W
  read_loop read count [] w = ([], w)
  read_loop read count (i ∷ is) w =
      let first = read i w in
      let rest = read_loop read (count + 1) is first.1 in
      if ltb count max_params then (first.0 ∷ rest.0, rest.1) else ([], w)

  unfoldable pub read_values : Option (ℕ → W → Value F × W) → List ℕ → W → List (Value F) × W
  read_values none indices w = ([], w)
  read_values (some read) indices w = read_loop read 0 indices w

  unfoldable pub read_group_sync : ℕ → Sensor F W → Sensor F W
  read_group_sync group s =
      let indices = collect_group_indices s.params group max_params in
      let read = read_values s.cb.read_param indices s.world in
      record s { data_cache = read.0; data_available = true; world = read.1 }
