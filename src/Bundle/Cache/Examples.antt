-- ===== src/Bundle/Cache/Examples.antt =====
-- A save that dies in the write.
use zeus_gslb.Bundle.Cache.{save_cache}
use zeus_gslb.Bundle.Cache.Atomic.{Atomic, save_cache-Atomic}
use zeus_gslb.Bundle.Samples.{second_raw, crash_plan, first_dir}

save_cache-Atomic_example :
    Atomic first_dir.final second_raw (save_cache crash_plan second_raw first_dir)
save_cache-Atomic_example = save_cache-Atomic crash_plan second_raw first_dir
