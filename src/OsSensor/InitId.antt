-- ===== src/OsSensor/InitId.antt =====
-- `init_id_changed`: how the node tells that the sensor was initialised again.
use ouster_ros.Prelude.{ℕ, ◌^◌, ◌<◌, ◌≡◌, not, ◌&&◌, some, arith}
use ouster_ros.OsSensor.{Node, is_id, init_id_changed}

-- After a packet the node remembers its id. The packet is reported as a change exactly where its id is not the one
-- remembered and no restart is being waited out; the wait ends at such an id, not at the same one.
pub init_id_changed_lem :
    {C : Type 0} (current : ℕ) (n : Node C)
    → current < 2 ^ 32
    → let (n', changed) = init_id_changed current n in
      (n'.last_init_id ≡ some current)
      × (changed ≡ (not n.reset_last_init_id && not (is_id n.last_init_id current)))
      × (n'.reset_last_init_id ≡ (n.reset_last_init_id && is_id n.last_init_id current))
unfolding init_id_changed
init_id_changed_lem current n h = ground arith
