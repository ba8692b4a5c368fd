-- ===== src/Tests/Disks.antt =====
-- fileops.go: the sandbox of the root /srv/data, with a link in it that leads out.
use remote_cli.Common.{
  ◌≡◌, refl, ◌↔◌, true, [], ◌∷◌, if◌then◌else◌, bytes_eq, codes, split, onto_first,
}
use remote_cli.Sandbox.{
  FilePath, text, slashed, Links, Evaluated, evaluated, missing, no_link, under_root, absolute,
  enter_all, enter, validate_path, resolve_path, resolve_roots, leads_outside, check_real,
  resolve_with, unless_missing, resolved_or, under_roots, has_prefix, root_prefix,
}
use remote_cli.Sandbox.Prefix.{Within, under_root-Within}
use remote_cli.Sandbox.Leads.{Leads}

-- /srv, /srv/data, /srv/data/a and /etc.
abbrev pub srv : FilePath
srv = codes "srv" ∷ []

abbrev pub root : FilePath
root = codes "data" ∷ srv

abbrev pub file_a : FilePath
file_a = codes "a" ∷ root

abbrev etc : FilePath
etc = codes "etc" ∷ []

-- `/srv/data` and `/srv/data/a` are there, and `/srv/data/etc` is a link to `/etc`.
abbrev evaluate : FilePath → Evaluated
evaluate p =
    if bytes_eq (text p) (text root)
    then evaluated root
    else if bytes_eq (text p) (text file_a)
    then evaluated file_a
    else if bytes_eq (text p) (text (codes "etc" ∷ root))
    then evaluated etc
    else missing

abbrev linked : Links
linked = record { eval = evaluate; link = λ p. no_link }

-- `/srv/data2` is not under `/srv/data`.
under_root-Within_example :
    (under_root (codes "data2" ∷ srv) root ≡ true) ↔ Within (codes "data2" ∷ srv) root
under_root-Within_example =
    under_root-Within (codes "data2" ∷ srv) root
      (
        (λ h. cc, (refl, (refl, (refl, (refl, (refl, tt)))))),
        ((λ h. cc, (refl, (refl, (refl, tt)))), tt),
      )
      ((λ h. cc, (refl, (refl, (refl, (refl, tt))))), ((λ h. cc, (refl, (refl, (refl, tt)))), tt))

-- The link is seen, and what it leads to is outside.
escape_by_link : validate_path linked srv (codes "data/etc") (root ∷ []) ≡ leads_outside
unfolding validate_path check_real resolve_path resolve_with unless_missing resolve_roots
    resolved_or under_roots under_root has_prefix root_prefix text slashed absolute enter_all enter
    bytes_eq split onto_first
escape_by_link = refl
