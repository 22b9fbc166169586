-- ===== src/Weathermap/Config.antt =====
-- weathermap/js/config.dist.js: the numbers that the map reads. The two URLs are not modelled.
use jaspy.Weathermap.Numbers.{Double, Vec, vec, int}

pub record Config (S : Type 0) : Type 0 where
  pub device_icon_size : S
  pub arrow_width : S
  pub arrow_length : S
  pub link_group_width : S
  pub spring_distance : S
  pub speed_factor_factor : S

module _ {S : Type 0} ⦃num : Double S⦄ where
  unfoldable pub config_dist : Config S
  config_dist = record {
    device_icon_size = int 20;
    arrow_width = int 8;
    arrow_length = int 16;
    link_group_width = int 8;
    spring_distance = int 64;
    speed_factor_factor = num.ratio 1 10;
  }

module _ {S : Type 0} where
  -- `new Victor(k, k)`
  abbrev pub scalar : S → Vec S
  scalar k = vec k k
