-- ===== src/Ctlog/Precert.antt =====
-- pkg/ctlog/precert.go: the template of the pre-certificate, and the embedding of the SCT list.
use go_certa.Prelude.{
  ℕ, Str, str_eq, true, false, not, Option, none, some, List, [], ◌∷◌, ◌++◌, is_empty,
  if◌then◌else◌,
}
use go_certa.Ca.Types.{Extension, Template}

abbrev pub oid_extension_ct_poison : List ℕ
oid_extension_ct_poison = 1 ∷ 3 ∷ 6 ∷ 1 ∷ 4 ∷ 1 ∷ 11129 ∷ 2 ∷ 4 ∷ 3 ∷ []

abbrev pub oid_extension_sct_list : List ℕ
oid_extension_sct_list = 1 ∷ 3 ∷ 6 ∷ 1 ∷ 4 ∷ 1 ∷ 11129 ∷ 2 ∷ 4 ∷ 2 ∷ []

abbrev pub poison : Extension
poison = record { id = oid_extension_ct_poison; critical = true; value = 5 ∷ 0 ∷ [] }

abbrev pub sct_list : Str → Extension
sct_list serialized = record { id = oid_extension_sct_list; critical = false; value = serialized }

-- none for a nil template.
unfoldable pub build_pre_certificate_template : Option Template → Option Template
build_pre_certificate_template none = none
build_pre_certificate_template (some tmpl) =
    some (record tmpl { extra_extensions = tmpl.extra_extensions ++ (poison ∷ []) })

-- The loop that leaves the poison out.
unfoldable pub without_poison : List Extension → List Extension
without_poison [] = []
without_poison (ext ∷ exts) =
    let rest = without_poison exts in
    if not (str_eq ext.id oid_extension_ct_poison) then ext ∷ rest else rest

-- The template that a pointer to `tmpl` shows afterwards.
unfoldable pub embed_sct_list : Template → Str → Template
unfolding without_poison
embed_sct_list tmpl serialized = if is_empty serialized then tmpl else record tmpl {
  extra_extensions = without_poison tmpl.extra_extensions ++ (sct_list serialized ∷ []);
}
