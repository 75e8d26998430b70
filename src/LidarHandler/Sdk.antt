-- ===== src/LidarHandler/Sdk.antt =====
-- What the packet handler uses of the Ouster SDK and of ROS: types and operations that are not part
-- of the repository, taken as one parameter. `timestamp()` of a scan is a view, so `set_timestamp`
-- stands for the writes through it.
use ouster_ros.Prelude.{ℕ, Bool, List}
use ouster_ros.Prelude.Int.{ℤ}
use ouster_ros.Float.{Float}

pub data Channel : Type 0 where
  red green blue : Channel

pub record Sdk : Type 1 where
  pub float : Float
  pub Packet : Type 0
  pub Scan : Type 0
  pub Batcher : Type 0
  pub AutoExposure : Type 0
  pub Time : Type 0
  pub host_timestamp : Packet → ℕ
  -- `pf.col_measurement_id(pf.nth_col(0, buf))`
  pub packet_col_index : Packet → ℕ
  -- `(*scan_batcher)(packet, scan)`: the result says that the scan is complete.
  pub batch : Batcher → Packet → Scan → Batcher × Scan × Bool
  pub timestamp : Scan → List ℕ
  pub set_timestamp : Scan → List ℕ → Scan
  pub status : Scan → List ℕ
  -- The 16-bit color fields and the 8-bit ones beside them.
  pub field : Channel → Scan → List ℕ
  pub set_field_u8 : Channel → List ℕ → Scan → Scan
  -- `auto_exposure_->update(r, g, b, true)`
  pub expose :
      AutoExposure
      → List (float.F)
      → List (float.F)
      → List (float.F)
      → AutoExposure × List (float.F) × List (float.F) × List (float.F)
  -- `ros::Time::fromNSec`, and `time - ros::Duration(0, nsec)`
  pub from_nsec : ℕ → Time
  pub minus_nsec : Time → ℤ → Time
