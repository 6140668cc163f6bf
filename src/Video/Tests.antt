-- ===== src/Video/Tests.antt =====
-- The theorem on the dithering of filters/video/video.c at a concrete row.
