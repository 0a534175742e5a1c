-- ===== src/Logutil/Tests.antt =====
-- A path, and the theorem at it.
use code_execution_engine.Common.{◌≡◌, refl, codes}
use code_execution_engine.Logutil.{short, short_from}
use code_execution_engine.Logutil.Base.{IsBase, short-IsBase}

short_of_path : short (codes "/src/service/service.go") ≡ codes "service.go"
unfolding short short_from
short_of_path = refl

short_of_root : short (codes "/main.go") ≡ codes "/main.go"
unfolding short short_from
short_of_root = refl

short-IsBase_example :
    IsBase (codes "/src/service/service.go") (short (codes "/src/service/service.go"))
short-IsBase_example = short-IsBase (codes "/src/service/service.go")
