-- ===== src/Messages/Laser/Processor.antt =====
-- src/laser_scan_processor.h: the processor of laser scans, and src/os_ros.cpp: `parse_version`. The regular expression
-- and `stoul` are the standard library's, the invalid version is the SDK's: arguments.
use Prim.Native.String.{String}
use ouster_ros.Prelude.{
  ℕ, zero, suc, ◌+◌, ◌%◌, ◌^◌, ◌≤◌, ◌<◌, ◌≡◌, refl, sym, ap, ◌∙◌, Bool, true, false, Option, none,
  some, List, [], ◌∷◌, length, get_elem?, arith, if◌then◌else◌, ◌==◌,
}
use ouster_ros.Prelude.Int.{ℤ}
use ouster_ros.Float.{Float}
use ouster_ros.PointTypes.{ChanField, chan_range, chan_range2}
use ouster_ros.PointCloud.Point.{LidarScan}
use ouster_ros.Messages.Laser.{
  Geometry, LaserScan, correct_shifts, process_returns, lidar_scan_to_laser_scan_msg,
}

pub record Version : Type 0 where
  pub major : ℕ
  pub minor : ℕ
  pub patch : ℕ

-- `stoul` throws where there is no number.
unfoldable pub version_of_numbers : Version → Option ℕ → Option ℕ → Option ℕ → Version
version_of_numbers invalid (some a) (some b) (some c) = record {
  major = a % 2 ^ 16;
  minor = b % 2 ^ 16;
  patch = c % 2 ^ 16;
}
version_of_numbers invalid _ _ _ = invalid

-- The groups of the match, of which the first is the whole.
unfoldable pub version_of : (String → Option ℕ) → Version → List String → Version
unfolding version_of_numbers
version_of stoul invalid (whole ∷ a ∷ b ∷ c ∷ more) =
    version_of_numbers invalid (stoul a) (stoul b) (stoul c)
version_of stoul invalid _ = invalid

unfoldable pub parse_version :
    (String → List String) → (String → Option ℕ) → Version → String → Version
unfolding version_of
parse_version regex_search stoul invalid fw_rev = version_of stoul invalid (regex_search fw_rev)

pub record LaserScanProcessor : Type 0 where
  pub frame : String
  pub ring : ℕ
  pub pixel_shift_by_row : List ℤ
  pub scan_msgs : ℕ

-- The members, for the firmware's version, the shifts of the sensor's format and its number of returns.
unfoldable pub create_laser_scan_processor : Version → List ℤ → ℕ → String → ℕ → LaserScanProcessor
unfolding correct_shifts
create_laser_scan_processor fw shifts num_returns frame ring = record {
  frame = frame;
  ring = ring;
  pixel_shift_by_row = correct_shifts fw.major fw.minor shifts;
  scan_msgs = num_returns;
}

module _ (k : Float) (g : Geometry k) (has_field : ChanField → Bool) where
  -- What is handed to the function that publishes, `none` where an exception is thrown.
  unfoldable pub process_laser_scan :
      LaserScanProcessor → LidarScan → ℕ → Option (List (LaserScan k))
  unfolding process_returns
  process_laser_scan p ls msg_ts =
      process_returns
        (λ i.
          lidar_scan_to_laser_scan_msg k g has_field ls msg_ts p.frame p.ring p.pixel_shift_by_row
            i)
        0 p.scan_msgs

get-cons :
    {M : Type 0} (message : ℕ → Option M) (i n : ℕ) (m : M) (ms : List M)
    → message i ≡ some m
    → ((j : ℕ) → j < n → get_elem? ms j ≡ message (suc i + j))
    → (j : ℕ) → j < suc n
    → get_elem? (m ∷ ms) j ≡ message (i + j)
get-cons message i n m ms e get zero lt =
    let same : i ≡ i + 0 = omega arith in sym e ∙ ap message same
get-cons message i n m ms e get (suc j) lt =
    let same : suc i + j ≡ i + suc j = omega arith in get j (omega arith) ∙ ap message same

-- A loop whose messages are all made makes them in order.
process_returns-get :
    {M : Type 0} (message : ℕ → Option M) (i n : ℕ)
    → ((j : ℕ) → i ≤ j → j < i + n → (m : M) × (message j ≡ some m))
    → (msgs : List M) × (process_returns message i n ≡ some msgs)
      × (length msgs ≡ n)
      × ((j : ℕ) → j < n → get_elem? msgs j ≡ message (i + j))
unfolding process_returns
process_returns-get message i zero made = ([], refl, refl, λ j lt. absurd (omega arith))
process_returns-get message i (suc n) made =
    let (m, e) = made i (omega arith) (omega arith) in
    let (ms, e', len, get) =
      process_returns-get message (suc i) n (λ j le lt. made j (omega arith) (omega arith)) in
    (m ∷ ms, ground (arith, e, e'), omega arith, get-cons message i n m ms e get)

made_if :
    {A : Type 0} (b : Bool) (x : A) → b ≡ true → (m : A) × ((if b then some x else none) ≡ some m)
made_if true x h = (x, refl)
made_if false x h = cc

message-made :
    (k : Float) (g : Geometry k) (has_field : ChanField → Bool) (ls : LidarScan) (msg_ts : ℕ)
    (frame : String) (ring : ℕ) (shifts : List ℤ) (j : ℕ)
    → has_field (if j == 0 then chan_range else chan_range2) ≡ true
    → (m : LaserScan k) × (lidar_scan_to_laser_scan_msg k g has_field ls msg_ts frame ring shifts j
        ≡ some m)
unfolding lidar_scan_to_laser_scan_msg
message-made k g has_field ls msg_ts frame ring shifts j has = made_if _ _ has

has_range :
    (has_field : ChanField → Bool) (n j : ℕ)
    → has_field chan_range ≡ true
    → (2 ≤ n → has_field chan_range2 ≡ true)
    → j < n
    → has_field (if j == 0 then chan_range else chan_range2) ≡ true
has_range has_field n zero first second lt = first
has_range has_field n (suc j) first second lt = ground (arith, second (omega arith))

module _ (k : Float) (g : Geometry k) (has_field : ChanField → Bool) where
  -- For a sensor of `n` returns whose scans have the range of the first return, and of the second where `n` is above 1,
  -- the processor makes `n` messages, and the `j`-th is that of return `j` for the ring, with the shifts of the rows,
  -- less 31 each where the version read from the firmware's text is from 2.0 to 2.3.
  pub process_laser_scan_lem :
      (fw : Version) (shifts : List ℤ) (n : ℕ) (frame : String) (ring : ℕ) (ls : LidarScan)
      (msg_ts : ℕ)
      → has_field chan_range ≡ true
      → (2 ≤ n → has_field chan_range2 ≡ true)
      → (msgs : List (LaserScan k)) × (process_laser_scan k g has_field
            (create_laser_scan_processor fw shifts n frame ring)
            ls
            msg_ts
          ≡ some msgs)
        × (length msgs ≡ n)
        × ((j : ℕ)
            → j < n
            → get_elem? msgs j
              ≡ lidar_scan_to_laser_scan_msg k g has_field ls msg_ts frame ring
                  (correct_shifts fw.major fw.minor shifts)
                  j)
  unfolding process_laser_scan create_laser_scan_processor
  process_laser_scan_lem fw shifts n frame ring ls msg_ts first second =
      let message : ℕ → Option (LaserScan k) = λ i.
        lidar_scan_to_laser_scan_msg k g has_field ls msg_ts frame ring
          (correct_shifts fw.major fw.minor shifts) i in
      let (msgs, e, len, get) = process_returns-get message 0 n (λ j le lt.
        message-made k g has_field ls msg_ts frame ring (correct_shifts fw.major fw.minor shifts) j
          (has_range has_field n j first second (omega arith))) in
      let from_0 : (j : ℕ) → 0 + j ≡ j = λ j. omega arith in
      (msgs, e, len, λ j lt. get j lt ∙ ap message (from_0 j))
