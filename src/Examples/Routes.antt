-- ===== src/Examples/Routes.antt =====
-- A request for a new rate, through the router.
use plata_test_task.Prelude.{
  pos, Text, codes, text_eq, byte_len, ◌≡◌, ◌++◌, List, [], ◌∷◌, refl, none, arith,
}
use plata_test_task.UseCase.Port.{memory_repository}
use plata_test_task.Http.Handlers.{Response, no_body, decoded}
use plata_test_task.Http.Middleware.{cors_headers}
use plata_test_task.Http.Middleware.TraceId.{IsTraceId}
use plata_test_task.Http.Router.{Request, Surroundings, to_post_updates, post, route, serve}
use plata_test_task.Http.Router.Answers.{IsTraced, served, serve-IsTraced, IsServed, serve-IsServed}
use plata_test_task.Examples.Data.{at_second, order_key, claimed_storage, claimed_Reach}
use plata_test_task.Examples.Api.{id_text, fixed_text, parsed_id}

abbrev posted_request : Request
posted_request = record {
  method = post;
  path = codes "api" ∷ codes "v1" ∷ codes "quotes" ∷ codes "updates" ∷ [];
  trace_id = codes "trace-1";
  origin = codes "https://app.example";
  key = order_key;
  pair = [];
  content = decoded (codes "usd/mxn");
}

abbrev surroundings : Surroundings
surroundings = record {
  update_id = 9;
  fresh_trace = codes "0190";
  now = at_second 110;
  not_ready = none;
}

abbrev no_such_page : Request → Response
no_such_page q = record { status = 404; headers = []; body = no_body }

abbrev one_origin : List Text
one_origin = codes "https://app.example" ∷ []

fresh_IsTraceId : IsTraceId surroundings.fresh_trace
unfolding byte_len
fresh_IsTraceId = record { given = λ e. cc e; short = omega arith; plain = ground arith }

posted_route : route posted_request.method posted_request.path ≡ to_post_updates
unfolding route text_eq
posted_route = refl

serve-IsTraced_example :
    (id : Text) × (rest : List (Text × Text)) × ((served
        (memory_repository (pos 0))
        id_text
        fixed_text
        parsed_id
        no_such_page
        one_origin
        surroundings
        posted_request
        claimed_storage).0.0.headers
      ≡ cors_headers one_origin posted_request.origin ++ (codes "X-Request-Id", id) ∷ rest)
    × IsTraced posted_request.trace_id surroundings.fresh_trace id
serve-IsTraced_example =
    serve-IsTraced (memory_repository (pos 0)) id_text fixed_text parsed_id no_such_page one_origin
      surroundings posted_request claimed_storage (λ e. cc e) fresh_IsTraceId

serve-IsServed_example : IsServed posted_request.method posted_request.path claimed_storage (
    serve
      (memory_repository (pos 0))
      id_text
      fixed_text
      parsed_id
      no_such_page
      one_origin
      surroundings
      posted_request
      claimed_storage)
serve-IsServed_example =
    serve-IsServed (pos 0) id_text fixed_text parsed_id no_such_page surroundings posted_request
      one_origin claimed_storage claimed_Reach
