-- ===== src/Inspect/Tests.antt =====
-- A command, and the line of a process.
use pallette.Base.{some}
use pallette.Base.Text.{codes}
use pallette.Http.Request.{HttpRequest, Method}
use pallette.Http.Request
use pallette.Http.Response.{HttpResponse}
use pallette.Http.Response
use pallette.Inspect.{Callback, new}

abbrev echo : Callback
echo = some (λ method args. codes "pid")

abbrev request : HttpRequest
request = record (Request.new) { path = codes "/proc/pid/all" }
