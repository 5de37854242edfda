-- ===== src/Interest.antt =====
-- internal/interest/interest.go. The reference table is kept in the order of the column `value`.
use meetgo_dating_server.Prelude.{List}
use meetgo_dating_server.Http.{json}
use meetgo_dating_server.Schema.{RefItem}
use meetgo_dating_server.Exec.{Exec, Handler, answer, query}

unfoldable pub list_interests : Exec (List RefItem)
list_interests = query (λ d. d.interests)

unfoldable pub handle_list_interests : Handler (List RefItem)
unfolding list_interests
handle_list_interests = answer (json 200) list_interests
