-- ===== src/Client/Facts/Modes.antt =====
-- device_utils.py: that the identifier is computed from facts that both ways of collecting give.
use py_auth.Prelude.{
  String, ◌≡◌, refl, Bool, true, false, Option, none, some, List, [], ◌∷◌, contains, ◌is◌, is_iff,
  arith, Bool-cases, Option-cases, inl, inr, ℤ, ap, sym,
}
use py_auth.Json.{Json, Fields, end, field, get, put, int, str, obj, update_fields}
use py_auth.Json.Laws.{IsDict, get-put, put-IsDict, get-update_fields}
use py_auth.Client.Identity.{Naming, id_components}
use py_auth.Client.Disks.{Entry, entries_to_models_map}
use py_auth.Client.Platform.{root_disk_on}
use py_auth.Client.Facts.{
  Tools, System, Frequency, extended_cpu, facts_psutil_cpu, facts_psutil_memory,
  facts_psutil_root_disk_usage, first_facts, measured_facts, collect_device_facts, put_positive,
  with_frequency, with_models, with_cpu_model, cpu_model_best, is_positive, disk_entries,
  or_positive, bytes, named_facts, text_or_null, mac_or_node,
}

-- the facts of which the identifier is made
abbrev id_keys : List String
id_keys =
    "mac" ∷ "disk_id" ∷ "cpu_count" ∷ "memory_total_gb" ∷ "disk_total_gb" ∷ "system" ∷ "machine"
    ∷ []

-- two dicts that agree on them
Agree : Fields → Fields → Type 0
Agree d d' = (key : String) → contains id_keys key ≡ true → get key d ≡ get key d'

Agree-refl : (d : Fields) → Agree d d
unfolding Agree
Agree-refl d key h = refl

-- a fact that the identifier does not use
Agree-put_other :
    (k : String) (v : Json) (d d' : Fields)
    → contains id_keys k ≡ false
    → Agree d d'
    → Agree (put k v d) d'
unfolding Agree
Agree-put_other k v d d' other a key h = elim (Bool-cases (k is key)) [
  | inl e ↦ absurd (cc (ap (contains id_keys) ((is_iff k key).0 e)))
  | inr e ↦ rw (get-put k key v d, e) (a key h)
]

Agree-put : (k : String) (v : Json) (d d' : Fields) → Agree d d' → Agree (put k v d) (put k v d')
unfolding Agree
Agree-put k v d d' a key h = rw (get-put k key v d, get-put k key v d', a key h) refl

Agree-update :
    (d d' e e' : Fields)
    → IsDict e
    → IsDict e'
    → Agree d d'
    → Agree e e'
    → Agree (update_fields d e) (update_fields d' e')
unfolding Agree
Agree-update d d' e e' dict dict' a b key h =
    ground
      (arith, get-update_fields key d e dict, get-update_fields key d' e' dict', a key h, b key h)

id_components-Agree :
    (py : Naming) (name : String) (d d' : Fields)
    → Agree d d'
    → id_components py d name ≡ id_components py d' name
unfolding Agree id_components contains ◌is◌
id_components-Agree py name d d' a =
    rw
      (
        a "mac" refl,
        a "disk_id" refl,
        a "cpu_count" refl,
        a "memory_total_gb" refl,
        a "disk_total_gb" refl,
        a "system" refl,
        a "machine" refl,
      )
      refl

-- a dict that agrees with another one on these facts, and has no key twice
Kept : Fields → Fields → Type 0
Kept d d' = Agree d d' × IsDict d

Kept-put_positive :
    (show : ℤ → Json) (key : String) (o : Option ℤ) (d d' : Fields)
    → contains id_keys key ≡ false
    → Kept d d'
    → Kept (put_positive show key o d) d'
unfolding Kept
Kept-put_positive show key none d d' other k = k
Kept-put_positive show key (some z) d d' other (a, dict) = elim (Bool-cases (is_positive z)) [
  | inl e ↦ rw e (Agree-put_other key (show z) d d' other a, put-IsDict key (show z) d dict)
  | inr e ↦ rw e (a, dict)
]

Kept-with_frequency :
    (round2 : ℤ → Json) (freq : Option (Option Frequency)) (d d' : Fields)
    → Kept d d'
    → Kept (with_frequency round2 freq d) d'
unfolding contains ◌is◌
Kept-with_frequency round2 none d d' k = k
Kept-with_frequency round2 (some none) d d' k = k
Kept-with_frequency round2 (some (some f)) d d' k =
    let kept = Kept-put_positive round2 "cpu_freq_mhz" (or_positive f.current f.most) d d' refl k in
    let kept' = Kept-put_positive round2 "cpu_freq_min_mhz" f.least _ d' refl kept in
    Kept-put_positive round2 "cpu_freq_max_mhz" f.most _ d' refl kept'

Kept-extended_cpu :
    (round2 : ℤ → Json) (physical : Option (Option ℤ)) (freq : Option (Option Frequency))
    (d d' : Fields)
    → Kept d d'
    → Kept (extended_cpu round2 physical freq d) d'
unfolding extended_cpu contains ◌is◌
Kept-extended_cpu round2 none freq d d' k = k
Kept-extended_cpu round2 (some physical) freq d d' k =
    Kept-with_frequency round2 freq (put_positive int "cpu_count_physical" physical d) d'
      (Kept-put_positive int "cpu_count_physical" physical d d' refl k)

with_cpu_model-Agree : (model : Option String) (d : Fields) → Agree (with_cpu_model model d) d
unfolding contains ◌is◌
with_cpu_model-Agree none d = Agree-refl d
with_cpu_model-Agree (some model) d =
    Agree-put_other "cpu_model" (str model) d d refl (Agree-refl d)

with_models-Agree :
    (entries : Option (List Entry)) (d d' : Fields) → Agree d d' → Agree (with_models entries d) d'
unfolding contains ◌is◌
with_models-Agree none d d' a = a
with_models-Agree (some []) d d' a = a
with_models-Agree (some (e ∷ es)) d d' a =
    Agree-put_other "disk_models" (obj (entries_to_models_map (e ∷ es))) d d' refl a

module _ (t : Tools) (s : System) where
  cpu-Kept : (extended : Bool) → Kept (facts_psutil_cpu t s extended) (facts_psutil_cpu t s false)
  unfolding facts_psutil_cpu get
  cpu-Kept extended = elim (Option-cases s.cpu_count) [
    | inl e ↦ rw (e, facts_psutil_cpu) (unfold Kept in (Agree-refl end, tt))
    | inr (n, e) ↦
        let kept : Kept (field "cpu_count" n end) (field "cpu_count" n end) =
          unfold Kept in (Agree-refl _, (refl, tt)) in
        elim (Bool-cases extended) [
          | inl b ↦
              rw (e, b, facts_psutil_cpu)
                (Kept-extended_cpu t.round2 s.cpu_count_physical s.cpu_freq _ _ kept)
          | inr b ↦ rw (e, b, facts_psutil_cpu) kept
        ]
  ]

  memory-Kept :
      (extended : Bool) → Kept (facts_psutil_memory t s extended) (facts_psutil_memory t s false)
  unfolding facts_psutil_memory get put Kept contains ◌is◌
  memory-Kept false = elim (Option-cases s.memory) [
    | inl e ↦ rw (e, facts_psutil_memory) (Agree-refl _, tt)
    | inr ((total, available, free), e) ↦ rw (e, facts_psutil_memory) (Agree-refl _, (refl, tt))
  ]
  memory-Kept true = elim (Option-cases s.memory) [
    | inl e ↦ rw (e, facts_psutil_memory) (Agree-refl _, tt)
    | inr ((total, available, free), e) ↦
        let short = field "memory_total_gb" (bytes t total) end in
        rw (e, facts_psutil_memory)
          (
            Agree-put_other "memory_free_gb" (bytes t free)
                (put "memory_available_gb" (bytes t available) short) short refl
                (Agree-put_other "memory_available_gb" (bytes t available) short short refl
                  (Agree-refl short)),
            (refl, (refl, (refl, tt))),
          )
  ]

  disk-IsDict : (mount : String) → IsDict (facts_psutil_root_disk_usage t s mount)
  unfolding facts_psutil_root_disk_usage get ◌is◌
  disk-IsDict mount = elim (Option-cases (s.disk_usage mount)) [
    | inl e ↦ rw (e, facts_psutil_root_disk_usage) tt
    | inr ((total, free), e) ↦ rw (e, facts_psutil_root_disk_usage) (refl, (refl, tt))
  ]

  first-Agree : (extended : Bool) → Agree (first_facts t s extended) (first_facts t s false)
  unfolding first_facts
  first-Agree false = Agree-refl _
  first-Agree true =
      let named = named_facts t s in
      let modelled = with_cpu_model (cpu_model_best s) named in
      Agree-put "disk_id" (str (root_disk_on s.os.platform s.os).1)
        (put "ip_address" (text_or_null s.network.ip) modelled)
        (put "ip_address" (text_or_null s.network.ip) named)
        (Agree-put "ip_address" (text_or_null s.network.ip) modelled named
          (with_cpu_model-Agree (cpu_model_best s) named))

  measured-Agree :
      (extended : Bool) → Agree (measured_facts t s extended) (measured_facts t s false)
  unfolding measured_facts Kept
  measured-Agree extended =
      let (cpu, cpu_dict) = cpu-Kept extended in
      let (memory, memory_dict) = memory-Kept extended in
      let mount = (root_disk_on s.os.platform s.os).0 in
      let disk = facts_psutil_root_disk_usage t s mount in
      Agree-update _ _ disk disk (disk-IsDict mount) (disk-IsDict mount)
        (Agree-update _ _ _ _ memory_dict (memory-Kept false).1
          (Agree-update _ _ _ _ cpu_dict (cpu-Kept false).1 (first-Agree extended) cpu) memory)
        (Agree-refl disk)

  collected-Agree : Agree (collect_device_facts t s false) (collect_device_facts t s true)
  unfolding collect_device_facts
  collected-Agree = Agree-put "mac" (mac_or_node t s) _ _ (
      with_models-Agree (disk_entries t s) (measured_facts t s true) (measured_facts t s false)
        (measured-Agree true))

-- The parts that the identifier is computed from are the same for the facts that are collected for it
-- alone and for the full facts of the same system, whatever the platform, and whichever queries fail.
pub id_components-collect_device_facts :
    (t : Tools) (s : System) (py : Naming) (name : String)
    → id_components py (collect_device_facts t s true) name
      ≡ id_components py (collect_device_facts t s false) name
id_components-collect_device_facts t s py name =
    sym (id_components-Agree py name _ _ (collected-Agree t s))
