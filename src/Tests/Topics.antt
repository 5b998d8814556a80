-- ===== src/Tests/Topics.antt =====
-- The publishers of a distributor with a topic for each lidar, before the first message.
use livox_mid360_rko_lio_ros.Base.{
  ℕ, zero, suc, ◌≡◌, refl, true, none, some, List, [], ◌∷◌, map, arith, replicate, ok, get_elem?,
}
use livox_mid360_rko_lio_ros.Comm.{replace_period_by_underline}
use livox_mid360_rko_lio_ros.Comm.Underline.{underline, replace_period_by_underline-eq}
use livox_mid360_rko_lio_ros.Lddc.{livox_custom_msg}
use livox_mid360_rko_lio_ros.Lddc.Publishers.{
  Publisher, Publishers, custom_msg, imu_msg, lidar_topic, imu_topic, get_current_publisher,
  get_current_imu_publisher,
}
use livox_mid360_rko_lio_ros.Lddc.Publishers.Slots.{wanted}
use livox_mid360_rko_lio_ros.Lddc.Publishers.Topics.{IsNamed, get_current_publisher_lem}
use livox_mid360_rko_lio_ros.Lddc.Publishers.ImuTopics.{get_current_imu_publisher_lem}
use livox_mid360_rko_lio_ros.Tests.{device, lds}

-- "1.7" for each address.
abbrev address : ℕ → List ℕ
address handle = b'1' ∷ b'.' ∷ b'7' ∷ []

abbrev before : Publishers
before = record {
  transfer_format = livox_custom_msg;
  use_multi_topic = true;
  private_pub = replicate 32 none;
  global_pub = none;
  private_imu_pub = replicate 32 none;
  global_imu_pub = none;
}

nothing : (n i : ℕ) (p : Publisher) → get_elem? (replicate n none) i ≡ some (some p) → ⊥
nothing zero i p e = cc
nothing (suc n) zero p e = cc
nothing (suc n) (suc i) p e = nothing n i p e

before-IsNamed : IsNamed address lds.lidars before
before-IsNamed = record {
  slots = refl;
  imu_slots = refl;
  private_named = λ i p d e h. absurd (nothing 32 i p e);
  global_named = λ p e. cc;
  private_imu_named = λ i p d e h. absurd (nothing 32 i p e);
  global_imu_named = λ p e. cc;
}

get_current_publisher_lem_example :
    let p = wanted address lds.lidars true custom_msg lidar_topic 7 in
    (self' : Publishers) × (get_current_publisher address lds.lidars 3 before ≡ ok (some p, self'))
    × IsNamed address lds.lidars self'
    × (get_current_publisher address lds.lidars 3 self' ≡ ok (some p, self'))
get_current_publisher_lem_example =
    get_current_publisher_lem address lds.lidars before before-IsNamed 3 device refl (omega arith)
      tt

get_current_imu_publisher_lem_example :
    let p = wanted address lds.lidars true imu_msg imu_topic 7 in
    (self' : Publishers) × (get_current_imu_publisher address lds.lidars 3 before
      ≡ ok (some p, self'))
    × IsNamed address lds.lidars self'
    × (get_current_imu_publisher address lds.lidars 3 self' ≡ ok (some p, self'))
get_current_imu_publisher_lem_example =
    get_current_imu_publisher_lem address lds.lidars before before-IsNamed 3 device refl
      (omega arith)

replace_period_by_underline-eq_example :
    replace_period_by_underline (address 7) ≡ map underline (address 7)
replace_period_by_underline-eq_example = replace_period_by_underline-eq (address 7)
