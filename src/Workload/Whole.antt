-- ===== src/Workload/Whole.antt =====
-- The warmup and the requests behind it, against either implementation of the interface.
use hw6_csci.Evictor.{Evictor}
use hw6_csci.Http.{Http}
use hw6_csci.Client.{Client}
