-- ===== src/Weathermap/Link/Laws.antt =====
-- weathermap/js/link.js: `isUp` and the two interfaces of a link.
use jaspy.Prelude.{ℕ, true, false, none, some, ◌≡◌, ◌≢◌, ◌↔◌, ◌⊎◌, arith}
use jaspy.Weathermap.Interface.{is_stale}
use jaspy.Weathermap.World.{World}
use jaspy.Weathermap.Link.{Link, source, own_status, peer_status, is_up}

module _ {S : Type 0} (now : ℕ) (w : World S) (l : Link) where
  -- The link's own report counts: there is one, and it is no older than a minute.
  abbrev pub Reported : Type 0
  Reported = (own_status w l ≢ none) × (is_stale now (source w l) ≡ false)

  -- A link is up exactly when its own interface has a status, is not stale and reports up, or when
  -- it has no status or is stale and the interface at the other end was last reported up.
  pub is_up_iff :
      (is_up now w l ≡ true)
      ↔ ((Reported × (own_status w l ≡ some true)) ⊎ ((¬ Reported) × (peer_status w l ≡ some true)))
  unfolding is_up
  is_up_iff = ground arith
