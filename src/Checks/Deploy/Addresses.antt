-- ===== src/Checks/Deploy/Addresses.antt =====
-- What the loops over the addresses establish when they leave no failure.
use aurelith.Base.{
  ◌≡◌, ◌≢◌, refl, ap, ◌∙◌, String, true, false, not, Option, List, [], ◌∷◌, arith, All, contains,
  string_eq,
}
use mathlib.Core.Path.{subst}
use aurelith.World.{World, Client, Address, zero_address}
use aurelith.Report.{Report, fail, add, add_if, has_failures}
use aurelith.Report.Counts.{has_status, has_failures-add-false, has_failures-add_if-false}
use aurelith.Validate.Laws.{HasCode, address_not_zero-eq-none, address_has_code-eq-none}
use aurelith.Checks.Deploy.{not_zero_loop, mark_zero, check_not_zero, code_loop, check_code}

module _ (w : World) where
  check_not_zero_sound :
      (label : String) (addr : Address)
      → has_status fail (check_not_zero w label addr) ≡ false
      → (addr ≢ zero_address) × (mark_zero w label addr [] ≡ [])
  unfolding check_not_zero
  check_not_zero_sound label addr h = ground (arith, address_not_zero-eq-none w addr label)

  not_zero_loop-keeps :
      (l : List (String × Address)) (zs : List String) (r : Report)
      → has_failures (not_zero_loop w l zs r).1 ≡ false
      → has_failures r ≡ false
  unfolding not_zero_loop
  not_zero_loop-keeps [] zs r h = h
  not_zero_loop-keeps ((label, addr) ∷ l) zs r h =
      let res = check_not_zero w label addr in
      (has_failures-add-false res r
        (not_zero_loop-keeps l (mark_zero w label addr zs) (add res r) h)).0

  pub not_zero_loop_sound :
      (l : List (String × Address)) (r : Report)
      → has_failures (not_zero_loop w l [] r).1 ≡ false
      → (has_failures r ≡ false)
        × ((not_zero_loop w l [] r).0 ≡ [])
        × All (λ e. e.1 ≢ zero_address) l
  unfolding not_zero_loop
  not_zero_loop_sound [] r h = (h, refl, tt)
  not_zero_loop_sound ((label, addr) ∷ l) r h =
      let res = check_not_zero w label addr in
      let kept = not_zero_loop-keeps l (mark_zero w label addr []) (add res r) h in
      let (start, new) = has_failures-add-false res r kept in
      let (nonzero, unmarked) = check_not_zero_sound label addr new in
      let (_, marks, rest) =
        not_zero_loop_sound l (add res r)
          (subst (λ zs. has_failures (not_zero_loop w l zs (add res r)).1 ≡ false) unmarked h) in
      (start, ap (λ zs. (not_zero_loop w l zs (add res r)).0) unmarked ∙ marks, (nonzero, rest))

  check_code_sound :
      (client : Option Client) (label : String) (addr : Address)
      → has_status fail (check_code w client label addr) ≡ false
      → HasCode client addr
  unfolding check_code
  check_code_sound client label addr h =
      (address_has_code-eq-none w client addr label).0 (ground arith)

  pub code_loop-keeps :
      (client : Option Client) (zs : List String) (l : List (String × Address)) (r : Report)
      → has_failures (code_loop w client zs l r) ≡ false
      → has_failures r ≡ false
  unfolding code_loop
  code_loop-keeps client zs [] r h = h
  code_loop-keeps client zs ((label, addr) ∷ l) r h =
      let checked = not (contains zs label) in
      let res = check_code w client label addr in
      (has_failures-add_if-false checked res r
        (code_loop-keeps client zs l (add_if checked res r) h)).0

  pub code_loop_sound :
      (client : Option Client) (l : List (String × Address)) (r : Report)
      → has_failures (code_loop w client [] l r) ≡ false
      → (has_failures r ≡ false) × All (λ e. HasCode client e.1) l
  unfolding code_loop
  code_loop_sound client [] r h = (h, tt)
  code_loop_sound client ((label, addr) ∷ l) r h =
      let (before, rest) =
        code_loop_sound client l (add_if true (check_code w client label addr) r) h in
      let (start, new) = has_failures-add_if-false true (check_code w client label addr) r before in
      (start, (check_code_sound client label addr (new refl), rest))
