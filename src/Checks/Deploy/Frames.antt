-- ===== src/Checks/Deploy/Frames.antt =====
-- The deployment checks append to the report, whatever it holds.
use aurelith.Base.{
  ◌≡◌, refl, String, Option, none, some, List, [], ◌∷◌, arith, contains, string_eq, not, ℕ,
}
use aurelith.World.{World, Client, Address}
use aurelith.Report.{Report, CheckResult, add, add_if}
use aurelith.Report.Extend.{extend, add-extend, add_if-extend}
use aurelith.Checks.Deploy.{
  add_all, not_zero_loop, mark_zero, check_not_zero, code_loop, check_code, add_funds, add_chain_id,
  add_env_format, check_deployer_key_source, check_extension_env_format, register_deploy_checks,
}

add_all-extend :
    (l : List CheckResult) (r s : Report) → add_all l (extend r s) ≡ extend r (add_all l s)
unfolding add_all
add_all-extend [] r s = refl
add_all-extend (res ∷ l) r s = rw (add-extend res r s) (add_all-extend l r (add res s))

module _ (w : World) where
  not_zero_loop-extend :
      (l : List (String × Address)) (zs : List String) (r s : Report)
      → not_zero_loop w l zs (extend r s)
        ≡ ((not_zero_loop w l zs s).0, extend r (not_zero_loop w l zs s).1)
  unfolding not_zero_loop
  not_zero_loop-extend [] zs r s = refl
  not_zero_loop-extend ((label, addr) ∷ l) zs r s =
      rw (add-extend (check_not_zero w label addr) r s)
        (not_zero_loop-extend l (mark_zero w label addr zs) r (add (check_not_zero w label addr) s))

  code_loop-extend :
      (client : Option Client) (zs : List String) (l : List (String × Address)) (r s : Report)
      → code_loop w client zs l (extend r s) ≡ extend r (code_loop w client zs l s)
  unfolding code_loop
  code_loop-extend client zs [] r s = refl
  code_loop-extend client zs ((label, addr) ∷ l) r s =
      let checked = not (contains zs label) in
      let res = check_code w client label addr in
      rw (add_if-extend checked res r s) (code_loop-extend client zs l r (add_if checked res s))

  add_funds-extend :
      (client : Option Client) (key : Option ℕ) (r s : Report)
      → add_funds w client key (extend r s) ≡ extend r (add_funds w client key s)
  unfolding add_funds
  add_funds-extend (some client) (some key) r s = add-extend _ r s
  add_funds-extend none key r s = refl
  add_funds-extend (some client) none r s = refl

  add_chain_id-extend :
      (client : Option Client) (r s : Report)
      → add_chain_id w client (extend r s) ≡ extend r (add_chain_id w client s)
  unfolding add_chain_id
  add_chain_id-extend none r s = refl
  add_chain_id-extend (some client) r s = add-extend _ r s

  add_env_format-extend :
      (path : String) (r s : Report)
      → add_env_format w path (extend r s) ≡ extend r (add_env_format w path s)
  unfolding add_env_format
  add_env_format-extend path r s =
      ground (arith, add_all-extend (check_extension_env_format w path) r s)

  module _ (client : Option Client) (key : Option ℕ) (first second : List (String × Address))
      (path : String) (r s : Report) where
    pub register_deploy_checks-extend :
        register_deploy_checks w client key first second path (extend r s)
        ≡ extend r (register_deploy_checks w client key first second path s)
    unfolding register_deploy_checks
    register_deploy_checks-extend =
        let (zs, s₁) = not_zero_loop w first [] s in
        let s₂ = code_loop w client zs second s₁ in
        let s₃ = add (check_deployer_key_source w) s₂ in
        let s₄ = add_funds w client key s₃ in
        rw
          (
            not_zero_loop-extend first [] r s,
            code_loop-extend client zs second r s₁,
            add-extend (check_deployer_key_source w) r s₂,
            add_funds-extend client key r s₃,
            add_chain_id-extend client r s₄,
            add_env_format-extend path r (add_chain_id w client s₄),
          )
          refl
