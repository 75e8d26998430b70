-- ===== src/Messages/Returns.antt =====
-- src/os_ros.cpp: the channels and topics of the second return.
use Prim.Native.String.{String}
use ouster_ros.Prelude.{ℕ, ◌+◌, ◌≡◌, Bool, Option, none, some, ◌==◌, if◌then◌else◌, arith}
use ouster_ros.PointTypes.{
  ChanField, chan_range, chan_range2, chan_signal, chan_signal2, chan_reflectivity,
  chan_reflectivity2, chan_flags, chan_flags2, chan_near_ir, chan_window,
}

-- `none` is the thrown exception.
unfoldable pub scan_return : ChanField → Bool → Option ChanField
scan_return chan_range second = some (if second then chan_range2 else chan_range)
scan_return chan_range2 second = some (if second then chan_range2 else chan_range)
scan_return chan_signal second = some (if second then chan_signal2 else chan_signal)
scan_return chan_signal2 second = some (if second then chan_signal2 else chan_signal)
scan_return chan_reflectivity second =
    some (if second then chan_reflectivity2 else chan_reflectivity)
scan_return chan_reflectivity2 second =
    some (if second then chan_reflectivity2 else chan_reflectivity)
scan_return chan_flags second = some (if second then chan_flags2 else chan_flags)
scan_return chan_flags2 second = some (if second then chan_flags2 else chan_flags)
scan_return chan_near_ir second = some chan_near_ir
scan_return chan_window second = some chan_window
scan_return _ second = none

-- The channel of a return is known again: asked for either return, it gives what the channel that it came from gives.
pub scan_return-again :
    (field c : ChanField) (second other : Bool)
    → scan_return field second ≡ some c
    → scan_return c other ≡ scan_return field other
unfolding scan_return
scan_return-again f c second other h = ground (arith, h)

-- The suffix of a topic: none for the first return, the number of the return for any other.
unfoldable pub topic_for_return : String → (String → ℕ → String) → ℕ → String
topic_for_return base append_number idx = if idx == 0 then base else append_number base (idx + 1)
