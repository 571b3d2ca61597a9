-- ===== src/Shuffle/Manager/Cleaning.antt =====
-- What `cleanup` leaves on the disk.
use minispark.Common.{
  ℕ, String, Bool, true, false, none, some, List, [], ◌∷◌, if◌then◌else◌, str_eq, str_eq_iff,
  Bool-cases, inl, inr, ◌≡◌, refl, sym, ap, ◌∙◌,
}
use minispark.Shuffle.Writer.{BlockPath, path_eq, read_file, Disk}
use minispark.Shuffle.Writer.Confined.{read_file-apart}
use minispark.Shuffle.Manager.{cleanup}

cleanup-drop :
    (root : String) (q : BlockPath) (bytes : List ℕ) (files : Disk) (b : Bool)
    → str_eq q.root_dir root ≡ b
    → cleanup root ((q, bytes) ∷ files)
      ≡ (if b then cleanup root files else (q, bytes) ∷ cleanup root files)
unfolding cleanup
cleanup-drop root q bytes files b e =
    ap (λ b. if b then cleanup root files else (q, bytes) ∷ cleanup root files) e

-- No file of the directory is left.
pub cleanup-gone :
    (root : String) (p : BlockPath) (files : Disk)
    → str_eq p.root_dir root ≡ true
    → read_file p (cleanup root files) ≡ none
unfolding cleanup read_file
cleanup-gone root p [] h = refl
cleanup-gone root p ((q, bytes) ∷ files) h = elim (Bool-cases (str_eq q.root_dir root)) [
  | inl e ↦ ap (read_file p) (cleanup-drop root q bytes files true e) ∙ cleanup-gone root p files h
  | inr e ↦
      ap (read_file p) (cleanup-drop root q bytes files false e)
      ∙ (read_file-apart p q bytes (cleanup root files) (apart e) ∙ cleanup-gone root p files h)
]
  where
    apart : str_eq q.root_dir root ≡ false → str_eq p.root_dir q.root_dir ≡ false
    apart e = elim (Bool-cases (str_eq p.root_dir q.root_dir)) [
      | inr f ↦ f
      | inl t ↦
          let same = (str_eq_iff p.root_dir q.root_dir).0 t in
          let own = (str_eq_iff p.root_dir root).0 h in
          ap (str_eq p.root_dir) (sym same ∙ own) ∙ (ap (λ d. str_eq d root) same ∙ e)
    ]

-- Every other file is as it was.
pub cleanup-kept :
    (root : String) (p : BlockPath) (files : Disk)
    → str_eq p.root_dir root ≡ false
    → read_file p (cleanup root files) ≡ read_file p files
unfolding cleanup read_file
cleanup-kept root p [] h = refl
cleanup-kept root p ((q, bytes) ∷ files) h = elim (Bool-cases (str_eq q.root_dir root)) [
  | inl e ↦
      ap (read_file p) (cleanup-drop root q bytes files true e)
      ∙ (cleanup-kept root p files h
          ∙ sym (
              read_file-apart p q bytes files
                (ap (str_eq p.root_dir) ((str_eq_iff q.root_dir root).0 e) ∙ h)))
  | inr e ↦
      ap (read_file p) (cleanup-drop root q bytes files false e)
      ∙ ap (λ o. if path_eq p q then some bytes else o) (cleanup-kept root p files h)
]
