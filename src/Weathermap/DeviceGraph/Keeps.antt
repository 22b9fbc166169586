-- ===== src/Weathermap/DeviceGraph/Keeps.antt =====
-- weathermap/js/devicegraph.js: maps before and after operations that change devices one by one.
use jaspy.Prelude.{
  String, some, List, [], ◌∷◌, Dict, get, put, ◌≡◌, refl, ◌∙◌, sym, eq_iff, str_eq, Option-cases,
  inl, inr, Bool-cases, get-put, has-put_old, Outcome, done, threw, ◌>>=◌, state, subst, All,
}
use jaspy.Weathermap.World.{World}
use jaspy.Weathermap.Device.{Device}
use jaspy.Weathermap.Device.Linked.{IsLinked, Known, SameLinks}
use jaspy.Weathermap.Device.Keeps.{SameLinks-refl, SameLinks-trans}
use jaspy.Weathermap.DeviceGraph.{Map, store, with_device, each_device}
use jaspy.Weathermap.DeviceGraph.Linked.{SameNames, IsLinked-SameNames, AllLinked}

module _ {S : Type 0} where
  abbrev pub KeepsLinks : (World S → Device S → Outcome (World S × Device S)) → Type 0
  KeepsLinks f = (w : World S) (d : Device S) → SameLinks d (state (f w d)).1

  -- The devices at the end of a run, however it ended.
  abbrev pub devices_of : Outcome (Map S) → Dict (Device S)
  devices_of o = (state o).1

  -- Two maps with the same names, where each device has the links it had.
  pub record SameMap (a b : Dict (Device S)) : Type 0 where
    pub names : SameNames a b
    pub links :
        (k : String) (e : Device S)
        → get k b ≡ some e
        → (d : Device S) × ((get k a ≡ some d) × SameLinks d e)

  pub SameMap-refl : (a : Dict (Device S)) → SameMap a a
  SameMap-refl a = record { names = λ k. refl; links = λ k e f. (e, (f, SameLinks-refl e)) }

  pub SameMap-trans : {a b c : Dict (Device S)} → SameMap a b → SameMap b c → SameMap a c
  SameMap-trans p q = record {
    names = λ k. q.names k ∙ p.names k;
    links = λ k e f.
        let (d, (g, s)) = q.links k e f in
        let (d', (g', s')) = p.links k d g in (d', (g', SameLinks-trans s' s));
  }

  IsLinked-SameLinks :
      (devices : Dict (Device S)) (d e : Device S)
      → SameLinks d e
      → IsLinked devices d
      → IsLinked devices e
  IsLinked-SameLinks devices d e s l = record {
    known = subst (All (Known devices)) (sym s.neighbors) l.known;
    super = rw (s.neighbors, s.super) l.super;
  }

  pub AllLinked-SameMap : (a b : Dict (Device S)) → SameMap a b → AllLinked a → AllLinked b
  AllLinked-SameMap a b s h k e f =
      let (d, (g, same)) = s.links k e f in
      IsLinked-SameNames a b e s.names (IsLinked-SameLinks a d e same (h k d g))

  devices_of-store :
      (key : String) (devices : Dict (Device S)) (o : Outcome (World S × Device S))
      → devices_of (store key devices o) ≡ put key (state o).1 devices
  devices_of-store key devices (done (w, d)) = refl
  devices_of-store key devices (threw (w, d)) = refl

  -- Writing a device with the same links in the place of the one that is there.
  put-SameMap :
      (key : String) (old new : Device S) (devices : Dict (Device S))
      → get key devices ≡ some old
      → SameLinks old new
      → SameMap devices (put key new devices)
  put-SameMap key old new devices found same = record {
    names = λ k. has-put_old key k new old devices found;
    links = λ k e f. elim (Bool-cases (str_eq key k)) [
      | inl eq ↦
          let here : some new ≡ some e = rw (get-put key k new devices, eq) at f in
          (
            old,
            (
              subst (λ j. get j devices ≡ some old) ((eq_iff key k).0 eq) found,
              subst (λ x. SameLinks old x) (cc here) same,
            ),
          )
      | inr other ↦ (e, (rw (get-put key k new devices, other) at f, SameLinks-refl e))
    ];
  }

  pub with_device-SameMap :
      (key : String) (f : World S → Device S → Outcome (World S × Device S))
      → KeepsLinks f
      → (m : Map S) → SameMap m.1 (devices_of (with_device key f m))
  unfolding with_device
  with_device-SameMap key f keeps (w, devices) = elim (Option-cases (get key devices)) [
    | inl e ↦ rw (e, with_device) (SameMap-refl devices)
    | inr (d, e) ↦
        rw (e, with_device)
          (rw (devices_of-store key devices (f w d))
            (put-SameMap key d (state (f w d)).1 devices e (keeps w d)))
  ]

  -- A run that goes on, after a first part.
  pub >>=-SameMap :
      (a : Dict (Device S)) (o : Outcome (Map S)) (f : Map S → Outcome (Map S))
      → ((m : Map S) → SameMap m.1 (devices_of (f m)))
      → SameMap a (devices_of o)
      → SameMap a (devices_of (o >>= f))
  >>=-SameMap a (done m) f keep h = SameMap-trans h (keep m)
  >>=-SameMap a (threw m) f keep h = h

  pub each_device-SameMap :
      (f : Dict (Device S) → World S → Device S → Outcome (World S × Device S))
      → ((devices : Dict (Device S)) → KeepsLinks (f devices))
      → (ks : List String) (m : Map S) → SameMap m.1 (devices_of (each_device f ks m))
  unfolding each_device
  each_device-SameMap f keeps [] m = SameMap-refl m.1
  each_device-SameMap f keeps (key ∷ rest) m =
      >>=-SameMap m.1 (with_device key (f m.1) m) (each_device f rest)
        (each_device-SameMap f keeps rest) (with_device-SameMap key (f m.1) (keeps m.1) m)
