-- ===== src/Weathermap/LinkGroup/Laws.antt =====
-- weathermap/js/linkgroup.js: the links of a group under `updateTopologyData`.
use jaspy.Prelude.{
  true, false, not, ◌||◌, ◌&&◌, String, some, List, [], ◌∷◌, Dict, get, has, delete, ◌≡◌, refl,
  subst, arith, str_eq, eq_iff, get-put, get-delete, has-put, has-delete, has-cons, All, Bool-cases,
  inl, inr, keep_all, kept, dropped, in_data,
}
use jaspy.Weathermap.World.{World}
use jaspy.Weathermap.Link
use jaspy.Weathermap.Link.{Link}
use jaspy.Weathermap.LinkGroup.{LinkGroup, LinkUpdate, add_links, drop_links, update_topology_data}

-- Each entry stands under the name of its remote interface, as `note_update` files it.
abbrev pub Filed : Dict LinkUpdate → Type 0
Filed = All (λ e. e.1.connection.interface ≡ e.0)

module _ {S : Type 0} where
  has-add_links :
      (j : String) (info : List (String × LinkUpdate)) (w : World S) (g : LinkGroup S)
      → Filed info
      → has j (add_links info (w, g)).1.grouped_links ≡ (has j info || has j g.grouped_links)
  unfolding add_links get
  has-add_links j [] w g h = refl
  has-add_links j ((key, value) ∷ rest) w g h = elim (Bool-cases (has key g.grouped_links)) [
    | inl old ↦
        rw (old, add_links) (rw (has-add_links j rest w g h.1) (ground (arith, eq_iff key j)))
    | inr new ↦
        let (w', link) = Link.new_link value.connection.interface value.interface w in
        rw (new, add_links)
          (rw
            (
              has-add_links j rest w' _ h.1,
              has-put value.connection.interface j link g.grouped_links,
              h.0,
            )
            (ground (arith, eq_iff key j)))
  ]

  has-drop_links :
      (j : String) (info : Dict LinkUpdate) (snapshot : List (String × Link)) (w : World S)
      (g : LinkGroup S)
      → has j (drop_links info snapshot (w, g)).1.grouped_links
        ≡ (has j g.grouped_links && (has j info || not (has j snapshot)))
  unfolding drop_links get
  has-drop_links j info [] w g = keep_all (has j g.grouped_links) (has j info)
  has-drop_links j info ((key, value) ∷ rest) w g = elim (Bool-cases (has key info)) [
    | inl old ↦ rw (has-cons key j value rest) (
        rw (old, drop_links)
          (rw (has-drop_links j info rest w g) (
            kept (str_eq key j) (has j g.grouped_links) (has j info) (has j rest)
              (λ e. subst (λ k. has k info ≡ true) ((eq_iff key j).0 e) old))))
    | inr gone ↦ rw (has-cons key j value rest) (
        rw (gone, drop_links)
          (rw
            (
              has-drop_links j info rest (Link.destroy value w)
                  (record g { grouped_links = delete key g.grouped_links; graphics_dirty = true }),
              has-delete key j g.grouped_links,
            )
            (dropped (str_eq key j) (has j g.grouped_links) (has j info) (has j rest)
              (λ e. subst (λ k. has k info ≡ false) ((eq_iff key j).0 e) gone))))
  ]

  -- After a topology update whose entries stand under the names of their remote interfaces, a group
  -- has a link for each remote interface of the data, and no other, whatever links it had.
  pub has-grouped_links :
      (j : String) (info : Dict LinkUpdate) (w : World S) (g : LinkGroup S)
      → Filed info
      → has j (update_topology_data info w g).1.grouped_links ≡ has j info
  unfolding update_topology_data
  has-grouped_links j info w g h =
      let s = add_links info (w, g) in
      rw (has-drop_links j info s.1.grouped_links s.0 s.1, has-add_links j info w g h)
        (in_data (has j g.grouped_links) (has j info))

  get-add_links_old :
      (j : String) (l : Link) (info : List (String × LinkUpdate)) (w : World S) (g : LinkGroup S)
      → Filed info
      → get j g.grouped_links ≡ some l
      → get j (add_links info (w, g)).1.grouped_links ≡ some l
  unfolding add_links
  get-add_links_old j l [] w g h e = e
  get-add_links_old j l ((key, value) ∷ rest) w g h e =
      elim (Bool-cases (has key g.grouped_links)) [
        | inl old ↦ rw (old, add_links) (get-add_links_old j l rest w g h.1 e)
        | inr new ↦
            let (w', link) = Link.new_link value.connection.interface value.interface w in
            rw (new, add_links)
              (get-add_links_old j l rest w' _ h.1 (
                rw (get-put value.connection.interface j link g.grouped_links, h.0)
                  (ground (arith, eq_iff key j))))
      ]

  get-drop_links_old :
      (j : String) (l : Link) (info : Dict LinkUpdate) (snapshot : List (String × Link))
      (w : World S) (g : LinkGroup S)
      → has j info ≡ true
      → get j g.grouped_links ≡ some l
      → get j (drop_links info snapshot (w, g)).1.grouped_links ≡ some l
  unfolding drop_links
  get-drop_links_old j l info [] w g own e = e
  get-drop_links_old j l info ((key, value) ∷ rest) w g own e = elim (Bool-cases (has key info)) [
    | inl old ↦ rw (old, drop_links) (get-drop_links_old j l info rest w g own e)
    | inr gone ↦
        rw (gone, drop_links)
          (get-drop_links_old j l info rest (Link.destroy value w) _ own
            (rw (get-delete key j g.grouped_links) (ground (arith, eq_iff key j))))
  ]

  -- Where the entries stand under the names of their remote interfaces, a link whose remote
  -- interface is still in the data stays as it was, with the source interface it was made with,
  -- also where the data now has another.
  pub update_topology_data-keeps_link :
      (j : String) (l : Link) (info : Dict LinkUpdate) (w : World S) (g : LinkGroup S)
      → Filed info
      → has j info ≡ true
      → get j g.grouped_links ≡ some l
      → get j (update_topology_data info w g).1.grouped_links ≡ some l
  unfolding update_topology_data
  update_topology_data-keeps_link j l info w g h own e =
      let s = add_links info (w, g) in
      get-drop_links_old j l info s.1.grouped_links s.0 s.1 own (get-add_links_old j l info w g h e)
