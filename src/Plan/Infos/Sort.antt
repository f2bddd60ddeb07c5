-- ===== src/Plan/Infos/Sort.antt =====
-- pkg/plan/sort.go and ResourceInstallTypeSortHandler (pkg/plan/resource_info.go): infos by what is
-- done with them, by their stages and by their weights.
use nelm.Base.{ℕ, Bool, ◌==◌, not, if◌then◌else◌, ltb, nat_eq}
use nelm.Common.{stages_sort_handler}
use nelm.Plan.Info.{
  ResourceInstallType, install_none, install_create, install_recreate, install_update,
  install_apply, InstallableResourceInfo,
}
use nelm.Resource.Sort.{installable_resource_sort_by_weight_handler}

install_rank : ResourceInstallType → ℕ
install_rank install_none = 0
install_rank install_create = 1
install_rank install_recreate = 2
install_rank install_update = 3
install_rank install_apply = 4

unfoldable pub resource_install_type_sort_handler : ResourceInstallType → ResourceInstallType → Bool
unfolding install_rank
resource_install_type_sort_handler type1 type2 = ltb (install_rank type1) (install_rank type2)

unfoldable pub installable_resource_info_sort_by_stage_handler :
    InstallableResourceInfo → InstallableResourceInfo → Bool
installable_resource_info_sort_by_stage_handler r1 r2 =
    if not (r1.stage == r2.stage)
    then stages_sort_handler r1.stage r2.stage
    else installable_resource_sort_by_weight_handler r1.local_resource r2.local_resource

unfoldable pub installable_resource_info_sort_by_must_install_handler :
    InstallableResourceInfo → InstallableResourceInfo → Bool
unfolding resource_install_type_sort_handler install_rank
installable_resource_info_sort_by_must_install_handler r1 r2 =
    if not (nat_eq (install_rank r1.must_install) (install_rank r2.must_install))
    then resource_install_type_sort_handler r1.must_install r2.must_install
    else installable_resource_info_sort_by_stage_handler r1 r2
