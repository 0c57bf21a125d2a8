-- ===== src/DeribitClient/Callbacks.antt =====
-- What the client's own callbacks change.
use hft_deribit.Prelude.{
  ◌≡◌, refl, ap, ◌∙◌, List, [], ◌∷◌, none, some, is_empty, Bool-cases, inl, inr,
}
use hft_deribit.Dispatcher.{Invocation, call_rpc, call_sub}
use hft_deribit.DeribitClient.{
  Client, RpcCallback, auth_success, auth_error, user, UserData, self, other,
}
use hft_deribit.DeribitClient.Calls.{run_callback, run_callbacks}

-- Callbacks change the access token only.
run_callback-token :
    {F S U : Type 0} (c : Client F S U) (i : Invocation (RpcCallback F) S (UserData U))
    → run_callback c i ≡ record c { access_token = (run_callback c i).access_token }
unfolding run_callback
run_callback-token c (call_rpc auth_success pm (some self)) =
    elim (Bool-cases (is_empty pm.access_token)) [ inl e ↦ rw e refl | inr e ↦ rw e refl ]
run_callback-token c (call_rpc auth_success pm (some (other u))) = refl
run_callback-token c (call_rpc auth_success pm none) = refl
run_callback-token c (call_rpc auth_error pm u) = refl
run_callback-token c (call_rpc (user f) pm u) = refl
run_callback-token c (call_sub f pm) = refl

pub run_callbacks-token :
    {F S U : Type 0} (c : Client F S U) (is : List (Invocation (RpcCallback F) S (UserData U)))
    → run_callbacks c is ≡ record c { access_token = (run_callbacks c is).access_token }
unfolding run_callbacks
run_callbacks-token c [] = refl
run_callbacks-token c (i ∷ is) =
    let last = run_callbacks (run_callback c i) is in
    run_callbacks-token (run_callback c i) is
    ∙ ap (λ (x : Client _ _ _). record x { access_token = last.access_token })
        (run_callback-token c i)
