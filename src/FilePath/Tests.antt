-- ===== src/FilePath/Tests.antt =====
-- Paths.
use libff.Prelude.{◌≡◌, refl, inl, inr, [], ◌∷◌, codes}
use libff.Strings.{trim, trim_left, trim_right, is_blank, starts_with, bytes_eq}
use libff.FilePath.Normal.{IsName}
use libff.FilePath.RoundTrip.{set_path-get_path, file_of-get_path}
use libff.FilePath.Children.{file_in_lem}
use libff.FilePath.{set_path, file_of, file_in, get_path, cut, get_suffix}

set_path-get_path_example :
    set_path (codes "old" ∷ []) (get_path (codes "/" ∷ codes "usr" ∷ codes "a b" ∷ []))
    ≡ codes "/" ∷ codes "usr" ∷ codes "a b" ∷ []
unfolding bytes_eq trim trim_left trim_right
set_path-get_path_example =
    set_path-get_path (codes "old" ∷ []) (codes "/") (codes "usr" ∷ codes "a b" ∷ []) (
      inr refl,
      (
        (λ e. cc, (refl, (refl, (refl, tt))), refl),
        ((λ e. cc, (refl, (refl, (refl, tt))), refl), tt),
      ),
    )

file_of-get_path_example :
    file_of (get_path (file_of (codes " //usr\\ /lib/ "))) ≡ file_of (codes " //usr\\ /lib/ ")
file_of-get_path_example = file_of-get_path (codes " //usr\\ /lib/ ")

file_in_lem_example :
    file_in (get_path (codes "usr" ∷ [])) (codes "lib") ≡ codes "usr" ∷ codes "lib" ∷ []
unfolding trim trim_left trim_right
file_in_lem_example =
    file_in_lem (codes "usr") [] (codes "lib") (inl usr, tt) (inl usr)
      (λ e. cc, (refl, (refl, (refl, tt))), refl)
  where
    usr : IsName (codes "usr")
    usr = (λ e. cc, (refl, (refl, (refl, tt))), refl)

names_of_text : file_of (codes " //usr\\ /lib/ ") ≡ codes "/" ∷ codes "usr" ∷ codes "lib" ∷ []
unfolding file_of starts_with bytes_eq trim trim_left trim_right is_blank
names_of_text = refl

suffix_of_name : get_suffix (codes "usr" ∷ codes "lib.so.1" ∷ []) ≡ codes "1"
unfolding get_suffix bytes_eq
suffix_of_name = refl

parent : cut (codes "/" ∷ codes "usr" ∷ codes "lib" ∷ []) 1 ≡ codes "/" ∷ codes "usr" ∷ []
unfolding cut
parent = refl
