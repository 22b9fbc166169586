-- ===== src/Webui/DeviceDetail/Qos.antt =====
-- nexus/webui/src/pages/DeviceDetail.tsx: the groups of the quality-of-service rows.
use jaspy.Prelude.{
  String, Option, none, some, List, [], ◌∷◌, ◌++◌, Dict, get, put, if◌then◌else◌, str_eq, eq_iff,
  ◌≡◌, refl, arith, ap, sym, ◌∙◌, Option-cases, inl, inr, get-put,
}
use mathlib.Core.List.{append-nil}
use jaspy.Webui.Grouping.{if-append}
use jaspy.Webui.Issues.Order.{keep}
use jaspy.Webui.DeviceDetail.{QosClass, QosGroup, qos_key, add_class, group_from}

abbrev pub classes_of : Option QosGroup → List QosClass
classes_of none = []
classes_of (some g) = g.classes

get-put_class :
    (j k : String) (c : QosClass) (g : QosGroup) (groups : Dict QosGroup)
    → g.classes ≡ classes_of (get j groups) ++ (c ∷ [])
    → classes_of (get k (put j g groups))
      ≡ classes_of (get k groups) ++ (if str_eq j k then c ∷ [] else [])
get-put_class j k c g groups h =
    ground (arith, eq_iff j k, get-put j k g groups, h, append-nil (classes_of (get k groups)))

get-add_class :
    (k : String) (c : QosClass) (groups : Dict QosGroup)
    → classes_of (get k (add_class c groups))
      ≡ classes_of (get k groups) ++ (if str_eq (qos_key c) k then c ∷ [] else [])
unfolding add_class
get-add_class k c groups = elim (Option-cases (get (qos_key c) groups)) [
  | inl e ↦ rw (e, add_class) (get-put_class (qos_key c) k c _ groups (rw e refl))
  | inr (g, e) ↦ rw (e, add_class) (get-put_class (qos_key c) k c _ groups (rw e refl))
]

-- A group has the classes of its key, in their order, behind those it had.
pub get-group_from :
    (k : String) (qos : List QosClass) (groups : Dict QosGroup)
    → classes_of (get k (group_from qos groups))
      ≡ classes_of (get k groups) ++ keep (λ c. str_eq (qos_key c) k) qos
unfolding group_from
get-group_from k [] groups = sym (append-nil (classes_of (get k groups)))
get-group_from k (c ∷ qos) groups =
    let here = classes_of (get k groups) in
    let later = keep (λ d. str_eq (qos_key d) k) qos in
    get-group_from k qos (add_class c groups)
    ∙ ap (λ x. x ++ later) (get-add_class k c groups)
    ∙ if-append (str_eq (qos_key c) k) c here later
