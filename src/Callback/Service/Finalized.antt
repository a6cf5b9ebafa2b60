-- ===== src/Callback/Service/Finalized.antt =====
-- That a completion of an active run ends it with its report.
