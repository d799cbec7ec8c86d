-- ===== src/Cfs/Load.antt =====
-- Load weights: the arithmetic of src/fair.c and the tables of src/sched.c.
pub mod Share
use rpi_os_cfs_ext.Base.{
  ℕ, zero, suc, ◌+◌, ◌-◌, ◌*◌, ◌/◌, ◌%◌, ◌^◌, Bool, true, false, not, List, [], ◌∷◌, ◌==◌, ltb, leb,
  if◌then◌else◌, u32, u64, sub64, get_or,
}

-- `struct load_weight`
pub record LoadWeight : Type 0 where
  pub weight : ℕ
  pub inv_weight : ℕ

abbrev pub wmult_const : ℕ
wmult_const = 2 ^ 32 - 1

abbrev pub wmult_shift : ℕ
wmult_shift = 32

abbrev pub nice_0_load : ℕ
nice_0_load = 1024

unfoldable pub update_load_add : LoadWeight → ℕ → LoadWeight
update_load_add lw inc = record { weight = u64 (lw.weight + inc); inv_weight = 0 }

unfoldable pub update_load_sub : LoadWeight → ℕ → LoadWeight
update_load_sub lw dec = record { weight = sub64 lw.weight dec; inv_weight = 0 }

-- `__update_inv_weight`
unfoldable pub update_inv_weight : LoadWeight → LoadWeight
update_inv_weight lw =
    if not (lw.inv_weight == 0)
    then lw
    else if leb wmult_const lw.weight
    then record lw { inv_weight = 1 }
    else if lw.weight == 0
    then record lw { inv_weight = wmult_const }
    else record lw { inv_weight = wmult_const / lw.weight }

-- `while(fact >> 32) { fact >>= 1; shift--; }`: the factor and the shift at the end.
unfoldable pub shift_loop : ℕ → ℕ → ℕ → ℕ × ℕ
shift_loop zero fact shift = (fact, shift)
shift_loop (suc fuel) fact shift =
    let rest = shift_loop fuel (fact / 2) (shift - 1) in
    if fact / 2 ^ 32 == 0 then (fact, shift) else rest

-- A product of two 32-bit numbers is below 2 ^ 64, so 32 rounds bring it below 2 ^ 32.
abbrev pub shift_rounds : ℕ
shift_rounds = 32

-- `__calc_delta`: the result and the weight, whose inverse may have been filled in.
unfoldable pub calc_delta : ℕ → ℕ → LoadWeight → ℕ × LoadWeight
unfolding update_inv_weight shift_loop
calc_delta delta_exec weight lw =
    let lw' = update_inv_weight lw in
    let fact = u64 (u32 weight * lw'.inv_weight) in
    let (fact', shift) = shift_loop shift_rounds fact wmult_shift in
    (u64 (delta_exec * fact') / 2 ^ shift, lw')

-- `calc_delta_fair`, on the load of the entity
unfoldable pub calc_delta_fair : ℕ → LoadWeight → ℕ × LoadWeight
unfolding calc_delta
calc_delta_fair delta load =
    if load.weight == nice_0_load then (delta, load) else calc_delta delta nice_0_load load

abbrev pub sysctl_sched_latency : ℕ
sysctl_sched_latency = 64

abbrev pub sysctl_sched_min_granularity : ℕ
sysctl_sched_min_granularity = 8

abbrev pub sched_nr_latency : ℕ
sched_nr_latency = 8

-- `__sched_period`
unfoldable pub sched_period : ℕ → ℕ
sched_period nr_running =
    if ltb sched_nr_latency nr_running
    then u64 (sysctl_sched_min_granularity * nr_running)
    else sysctl_sched_latency

abbrev pub sched_prio_to_weight : List ℕ
sched_prio_to_weight =
    88761 ∷ 71755 ∷ 56483 ∷ 46273 ∷ 36291 ∷ 29154 ∷ 23254 ∷ 18705 ∷ 14949 ∷ 11916 ∷ 9548 ∷ 7620
    ∷ 6100 ∷ 4904 ∷ 3906 ∷ 3121 ∷ 2501 ∷ 1991 ∷ 1586 ∷ 1277 ∷ 1024 ∷ 820 ∷ 655 ∷ 526 ∷ 423 ∷ 335
    ∷ 272 ∷ 215 ∷ 172 ∷ 137 ∷ 110 ∷ 87 ∷ 70 ∷ 56 ∷ 45 ∷ 36 ∷ 29 ∷ 23 ∷ 18 ∷ 15 ∷ []

abbrev pub sched_prio_to_wmult : List ℕ
sched_prio_to_wmult =
    48388 ∷ 59856 ∷ 76040 ∷ 92818 ∷ 118348 ∷ 147320 ∷ 184698 ∷ 229616 ∷ 287308 ∷ 360437 ∷ 449829
    ∷ 563644 ∷ 704093 ∷ 875809 ∷ 1099582 ∷ 1376151 ∷ 1717300 ∷ 2157191 ∷ 2708050 ∷ 3363326 ∷ 4194304
    ∷ 5237765 ∷ 6557202 ∷ 8165337 ∷ 10153587 ∷ 12820798 ∷ 15790321 ∷ 19976592 ∷ 24970740 ∷ 31350126
    ∷ 39045157 ∷ 49367440 ∷ 61356676 ∷ 76695844 ∷ 95443717 ∷ 119304647 ∷ 148102320 ∷ 186737708
    ∷ 238609294 ∷ 286331153 ∷ []

-- The weight that `set_load_weight` gives a priority from 100 to 139.
unfoldable pub prio_load : ℕ → LoadWeight
prio_load priority = record {
  weight = get_or sched_prio_to_weight (priority - 100) 0;
  inv_weight = get_or sched_prio_to_wmult (priority - 100) 0;
}
