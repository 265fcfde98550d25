-- ===== src/Server/ApiDoc/Secured.antt =====
-- Which routes need credentials, in the description and in the code.
use fluss_gateway.Base.{◌≡◌, refl, ap, ◌↔◌, true, text, none, err}
use fluss_gateway.Config.{passthrough}
use fluss_gateway.Types.Errors.{unauthorized}
use fluss_gateway.Fluss.{Externals}
use fluss_gateway.Gateway.{World, fails, fail, ◌>>=◌}
use fluss_gateway.Server.Rest
use fluss_gateway.Server.Rest.Access.{passthrough_refuses}
use fluss_gateway.Server.Rest.Api.{Api, list_databases, prefix_scan, handle}
use fluss_gateway.Server.ApiDoc.Statuses.{annotation_of}

-- In passthrough mode a request without credentials is answered with "authentication required", with
-- no connection and no call of Fluss, exactly if the description of its route demands them.
pub basic_auth_iff :
    (x : Externals) (req : Api) (w : World)
    → ((annotation_of req).basic_auth ≡ true) ↔ (
        handle x passthrough none req w
        ≡ (err (fails (unauthorized (text "authentication required"))), w))
unfolding handle Rest.prefix_scan ◌>>=◌ fail
basic_auth_iff x list_databases w = (λ _. passthrough_refuses x list_databases w refl, λ _. refl)
basic_auth_iff x (prefix_scan db name params) w = (λ h. cc, λ h. let e = ap (λ o. o.0) h in cc)
basic_auth_iff x req w = (λ _. passthrough_refuses x req w refl, λ _. refl)
